-- ===== src/Prelude/Words.antt =====
-- Unsigned machine words as native numbers, and the byte orders of the wire and of the host.
use Prim.Native.Nat.{ℕ, ◌+◌, ◌-◌, ◌*◌, ◌/◌, ◌%◌, ◌^◌}
use mathlib.Core.List.{List, [], ◌∷◌}

-- Arithmetic on `unsigned int` and `uint32_t`.
abbrev pub u32 : ℕ → ℕ
u32 n = n % 2 ^ 32

abbrev pub u16 : ℕ → ℕ
u16 n = n % 2 ^ 16

abbrev pub sub_u32 : ℕ → ℕ → ℕ
sub_u32 a b = (a + 2 ^ 32 - b) % 2 ^ 32

-- Two and four bytes, most significant first, as `(a << 8) + b` and `(a << 24) + ...` read them.
abbrev pub be16 : ℕ → ℕ → ℕ
be16 a b = a * 256 + b

abbrev pub be32 : ℕ → ℕ → ℕ → ℕ → ℕ
be32 a b c d = u32 (a * 16777216 + b * 65536 + c * 256 + d)

-- The four bytes of a word in the host's memory, least significant first.
abbrev pub le_bytes : ℕ → List ℕ
le_bytes n = (n % 256) ∷ (n / 256 % 256) ∷ (n / 65536 % 256) ∷ (n / 16777216 % 256) ∷ []
