-- ===== src/Prelude/Text.antt =====
-- Strings as lists of character codes: comparison, decimal numbers, and what stands between
-- separators.
pub mod Numerals
pub mod Fields
use Prim.Native.Nat.{ℕ, zero, suc, ◌+◌, ◌-◌, ◌*◌, ◌/◌, ◌%◌}
use Prim.Native.Char.{code}
use Prim.Native.String.{String}
use mathlib.Core.Bool.{Bool, true, false, ◌&&◌, ◌||◌}
use mathlib.Core.Option.{Option, none, some}
use mathlib.Core.List.{List, [], ◌∷◌, ◌++◌}
use sparcs.Prelude.Tests.{ltb, leb, ◌==◌, if◌then◌else◌}

-- The character codes of a text.
abbrev pub codes : String → List ℕ
codes String.[] = []
codes (String.◌∷◌ c s) = code c ∷ codes s

abbrev pub same_string : List ℕ → List ℕ → Bool
same_string [] [] = true
same_string [] (y ∷ ys) = false
same_string (x ∷ xs) [] = false
same_string (x ∷ xs) (y ∷ ys) = (x == y) && same_string xs ys

-- The string that begins in the memory: up to the zero.
abbrev pub c_string : List ℕ → List ℕ
c_string [] = []
c_string (c ∷ cs) = if c == 0 then [] else c ∷ c_string cs

abbrev pub flush : List ℕ → List (List ℕ)
flush [] = []
flush (c ∷ cs) = (c ∷ cs) ∷ []

-- The decimal digits of a number below 10 ^ fuel.
abbrev pub digits : ℕ → ℕ → List ℕ
digits zero n = []
digits (suc fuel) n =
    let front = digits fuel (n / 10) in (if ltb n 10 then [] else front) ++ (48 + n % 10) ∷ []

abbrev pub value_or : Option ℕ → ℕ
value_or none = 0
value_or (some n) = n

-- The number that the digits at the front give, behind those read before; `none` without any.
abbrev pub digits_value : Option ℕ → List ℕ → Option ℕ
digits_value acc [] = acc
digits_value acc (c ∷ cs) =
    let more = digits_value (some (value_or acc * 10 + (c - 48))) cs in
    if leb 48 c && leb c 57 then more else acc

abbrev pub skip_space : List ℕ → List ℕ
skip_space [] = []
skip_space (c ∷ cs) =
    let rest = skip_space cs in if (c == 32) || (leb 9 c && leb c 13) then rest else c ∷ cs

-- What `std::getline` reads up to each separator `sep`, behind the part `part` of the first: the
-- last is not read where it is empty.
abbrev pub split_from : ℕ → List ℕ → List ℕ → List (List ℕ)
split_from sep part [] = flush part
split_from sep part (c ∷ cs) =
    let after = split_from sep [] cs in
    let within = split_from sep (part ++ c ∷ []) cs in if c == sep then part ∷ after else within

-- Texts with a separator between each two.
abbrev pub join : ℕ → List (List ℕ) → List ℕ
join sep [] = []
join sep (t ∷ []) = t
join sep (t ∷ u ∷ ts) = t ++ sep ∷ join sep (u ∷ ts)

-- `std::to_string` of a `long` that is not negative.
unfoldable pub to_string : ℕ → List ℕ
to_string n = digits 20 n
