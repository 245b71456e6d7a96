-- ===== src/Reader/Request/Numbers.antt =====
-- Printed numbers are read back by `stoi` and as `uint64_t`.
use sparcs.Prelude.{
  ℕ, ◌^◌, ◌<◌, ◌≡◌, refl, sym, ap, ◌∙◌, false, none, some, List, [], arith, lt→ltb,
}
use mathlib.Core.List.{append-nil}
use sparcs.Prelude.Ints.{pos}
use sparcs.Prelude.Text.{digits, to_string, digits_value}
use sparcs.Prelude.Text.Numerals.{Leads, digits-Leads, digits_value-digits, skip_space-Leads}
use sparcs.Reader.Request.{ok, signed, read_number, int_in_range, u64_in_range, stoi, read_u64}

-- What stands in front of a number that is read: no sign.
signed-Leads : (s : List ℕ) → Leads s → signed s ≡ (false, s)
signed-Leads s l = rw l.shape (ground (arith, l.low, l.high))

read-digits : (n : ℕ) → n < 10 ^ 20 → digits_value none (digits 20 n) ≡ some n
read-digits n h =
    ap (digits_value none) (sym (append-nil (digits 20 n))) ∙ digits_value-digits 19 n [] h

read_number-to_string : (n : ℕ) → n < 10 ^ 20 → read_number (to_string n) ≡ some (false, n)
unfolding read_number to_string
read_number-to_string n h =
    let l = digits-Leads 19 n h in rw (skip_space-Leads _ l, signed-Leads _ l, read-digits n h) refl

-- Printed numbers are read back.
pub stoi-to_string : (n : ℕ) → n < 2 ^ 31 → stoi (to_string n) ≡ ok (pos n)
unfolding stoi
stoi-to_string n h =
    ap int_in_range (read_number-to_string n (omega arith)) ∙ rw (lt→ltb n (2 ^ 31) h) refl

pub read_u64-to_string : (n : ℕ) → n < 2 ^ 64 → read_u64 (to_string n) ≡ n
unfolding read_u64
read_u64-to_string n h = ap u64_in_range (read_number-to_string n (omega arith)) ∙ ground arith
