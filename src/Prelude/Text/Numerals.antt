-- ===== src/Prelude/Text/Numerals.antt =====
-- Decimal digits are read back.
use Prim.Native.Nat.{ℕ, zero, suc, ◌+◌, ◌/◌, ◌%◌, ◌^◌, ◌≤◌, ◌<◌}
use mathlib.Core.Path.{◌≡◌, refl}
use mathlib.Core.Bool.{true, false}
use mathlib.Core.Option.{none, some}
use mathlib.Core.List.{List, [], ◌∷◌, ◌++◌, append_assoc}
use native.Mathlib.Nat.{pow-suc}
use native.Mathlib.Omega.{arith}
use native.Mathlib.Decide.{dec_lt}
use sparcs.Prelude.Tests.{ltb}
use mathlib.Core.Logic.{◌⊎◌}
use sparcs.Prelude.Text.Fields.{Avoids}
use sparcs.Prelude.Text.{digits, digits_value, skip_space}

pub one_digit : (k n : ℕ) → n < 10 → digits (suc k) n ≡ (48 + n) ∷ []
one_digit k n h =
    let t : ltb n 10 ≡ true = ground arith in let e : n % 10 ≡ n = omega arith in rw (t, e) refl

pub more_digits : (k n : ℕ) → 10 ≤ n → digits (suc k) n ≡ digits k (n / 10) ++ (48 + n % 10) ∷ []
more_digits k n h = let t : ltb n 10 ≡ false = ground arith in rw t refl

-- Digits in front are read first.
abbrev pub IsNumeral : List ℕ → Type 0
IsNumeral [] = Unit
IsNumeral (c ∷ cs) = (48 ≤ c) × (c ≤ 57) × IsNumeral cs

pub IsNumeral-append : (s t : List ℕ) → IsNumeral s → IsNumeral t → IsNumeral (s ++ t)
IsNumeral-append [] t h k = k
IsNumeral-append (c ∷ s) t (low, high, h) k = (low, high, IsNumeral-append s t h k)

pub digits-IsNumeral : (f n : ℕ) → IsNumeral (digits f n)
digits-IsNumeral zero n = tt
digits-IsNumeral (suc k) n = elim (dec_lt n 10) [
  | yes p ↦ rw (one_digit k n p) (omega arith)
  | no p ↦
      rw (more_digits k n (omega arith))
        (IsNumeral-append (digits k (n / 10)) _ (digits-IsNumeral k (n / 10)) (omega arith))
]

-- A number within the fuel is not the empty text, and begins with a digit.
pub record Leads (s : List ℕ) : Type 0 where
  pub lead : ℕ
  pub others : List ℕ
  pub shape : s ≡ lead ∷ others
  pub low : 48 ≤ lead
  pub high : lead ≤ 57

pub Leads-append : (s t : List ℕ) → Leads s → Leads (s ++ t)
Leads-append s t l = record {
  lead = l.lead;
  others = l.others ++ t;
  shape = rw l.shape refl;
  low = l.low;
  high = l.high;
}

pub digits-Leads : (k n : ℕ) → n < 10 ^ suc k → Leads (digits (suc k) n)
digits-Leads zero n h =
    rw (one_digit 0 n (omega arith))
      record { lead = 48 + n; others = []; shape = refl; low = omega arith; high = omega arith }
digits-Leads (suc k) n h = elim (dec_lt n 10) [
  | yes p ↦
      rw (one_digit (suc k) n p)
        record { lead = 48 + n; others = []; shape = refl; low = omega arith; high = omega arith }
  | no p ↦ rw (more_digits (suc k) n (omega arith)) (
      Leads-append (digits (suc k) (n / 10)) _
        (digits-Leads k (n / 10) (omega (arith, pow-suc 10 (suc k)))))
]

-- Digits are read as the number.
pub digits_value-digits :
    (k n : ℕ) (rest : List ℕ)
    → n < 10 ^ suc k
    → digits_value none (digits (suc k) n ++ rest) ≡ digits_value (some n) rest
digits_value-digits zero n rest h = rw (one_digit 0 n (omega arith)) (ground arith)
digits_value-digits (suc k) n rest h = elim (dec_lt n 10) [
  | yes p ↦ rw (one_digit (suc k) n p) (ground arith)
  | no p ↦
      rw
        (
          more_digits (suc k) n (omega arith),
          append_assoc,
          digits_value-digits k (n / 10) ((48 + n % 10) ∷ rest) (omega (arith, pow-suc 10 (suc k))),
        )
        (ground arith)
]

pub skip_space-Leads : (s : List ℕ) → Leads s → skip_space s ≡ s
skip_space-Leads s l = rw l.shape (ground (arith, l.low, l.high))

-- A character that is no digit does not stand in a numeral.
pub IsNumeral-Avoids : (c : ℕ) → (c < 48) ⊎ (57 < c) → (s : List ℕ) → IsNumeral s → Avoids c s
IsNumeral-Avoids c away [] h = tt
IsNumeral-Avoids c away (d ∷ s) (low, high, h) = (λ e. ground arith, IsNumeral-Avoids c away s h)
