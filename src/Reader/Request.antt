-- ===== src/Reader/Request.antt =====
-- A request to cassspeed/main.cpp: the bytes that the socket delivers, the fields between the
-- semicolons, and what `SocketHandler` computes of them before it asks the database. An exception is
-- one of the two that the handler tells apart; `undefined` is a read or a write outside of an array.
pub mod Numbers
pub mod RoundTrip
pub mod Days
mod Tests
use sparcs.Prelude.{
  ℕ, zero, suc, ◌+◌, ◌-◌, ◌*◌, ◌/◌, ◌%◌, ◌^◌, Bool, true, false, not, ◌&&◌, ◌||◌, Option, none,
  some, List, [], ◌∷◌, ◌++◌, length, map, take, ltb, leb, ◌==◌, if◌then◌else◌,
}
use mathlib.Core.Option
use sparcs.Prelude.Ints.{ℤ, pos, negsuc, neg, opposite, is_negative, to_ℕ, sub_ℤ, ◌+ℤ◌}
use sparcs.Prelude.Text.{split_from, c_string, digits_value, skip_space}
use sparcs.Ftp.FileTime.{int_of}
use sparcs.Reader.Response.{samples_to_skip}

pub data Result {ℓ} (A : Type ℓ) : Type ℓ where
  ok : A → Result A
  invalid_argument out_of_range undefined : Result A

infixl 5 ◌>>=◌
abbrev pub ◌>>=◌ {ℓ κ} : {A : Type ℓ} {B : Type κ} → Result A → (A → Result B) → Result B
ok a >>= f = f a
invalid_argument >>= f = invalid_argument
out_of_range >>= f = out_of_range
undefined >>= f = undefined

-- A number behind its sign: whether it has a '-', and the digits.
abbrev pub signed : List ℕ → Bool × List ℕ
signed [] = (false, [])
signed (c ∷ cs) = if c == 45 then (true, cs) else if c == 43 then (false, cs) else (false, c ∷ cs)

-- White space, a sign and digits, as all functions of C read them; `none` without digits.
unfoldable pub read_number : List ℕ → Option (Bool × ℕ)
read_number s =
    let (minus, t) = signed (skip_space s) in Option.map (λ n. (minus, n)) (digits_value none t)

abbrev pub int_in_range : Option (Bool × ℕ) → Result ℤ
int_in_range none = invalid_argument
int_in_range (some (true, n)) = if ltb (2 ^ 31) n then out_of_range else ok (neg n)
int_in_range (some (false, n)) = if ltb n (2 ^ 31) then ok (pos n) else out_of_range

-- `std::stoi`
unfoldable pub stoi : List ℕ → Result ℤ
unfolding read_number
stoi s = int_in_range (read_number s)

abbrev pub u64_in_range : Option (Bool × ℕ) → ℕ
u64_in_range none = 0
u64_in_range (some (minus, n)) =
    if leb (2 ^ 64) n then 2 ^ 64 - 1 else if minus then (2 ^ 64 - n) % 2 ^ 64 else n

-- `stream >> tmp` for an `uint64_t`: 0 without digits, the greatest value where it does not fit, and
-- a '-' takes the value from 2 ^ 64.
unfoldable pub read_u64 : List ℕ → ℕ
unfolding read_number
read_u64 s = u64_in_range (read_number s)

-- `x.at(i++)`, with the fields from `i` on.
abbrev pub at : List (List ℕ) → Result (List ℕ × List (List ℕ))
at [] = out_of_range
at (t ∷ ts) = ok (t, ts)

abbrev pub at_int : List (List ℕ) → Result (ℤ × List (List ℕ))
at_int [] = out_of_range
at_int (t ∷ ts) = stoi t >>= λ v. ok (v, ts)

-- The loop that fills `devices`.
unfoldable pub read_devices : ℕ → List (List ℕ) → Result (List (List ℕ) × List (List ℕ))
read_devices zero x = ok ([], x)
read_devices (suc n) [] = out_of_range
read_devices (suc n) (t ∷ x) = read_devices n x >>= λ r. ok (t ∷ r.0, r.1)

-- The allocation and the loop: `new std::string[numdevices]` throws for a negative number.
abbrev pub devices_of : ℤ → List (List ℕ) → Result (List (List ℕ) × List (List ℕ))
devices_of (pos n) x = read_devices n x
devices_of (negsuc n) x = out_of_range

abbrev pub equals_zero : ℤ → Bool
equals_zero (pos n) = n == 0
equals_zero (negsuc n) = false

-- The loop that fills `requested`, for `n` of the twelve.
unfoldable pub read_requested : ℕ → List (List ℕ) → Result (List Bool × List (List ℕ))
read_requested zero x = ok ([], x)
read_requested (suc n) [] = out_of_range
read_requested (suc n) (t ∷ x) =
    stoi t >>= λ v. read_requested n x >>= λ r. ok (not (equals_zero v) ∷ r.0, r.1)

-- `split` of the fields of a request at ';'.
unfoldable pub split : List ℕ → List (List ℕ)
split s = split_from 59 [] s

-- The fields as they stand in the request.
pub record Fields : Type 0 where
  pub devices : List (List ℕ)
  pub nosamplesets : ℤ
  pub timestampstart : List ℕ
  pub timestampend : List ℕ
  pub requested : List Bool
  pub compression_method : ℤ
  pub stepsize : ℤ

-- The fields in turn. `devices[0]` is read even where there is none; by then all fields are read.
unfoldable pub parse_fields : List (List ℕ) → Result Fields
unfolding read_devices read_requested
parse_fields x = do
  (numdevices, x1) ← at_int x
  (devices, x2) ← devices_of numdevices x1
  (nosamplesets, x3) ← at_int x2
  (timestampstart, x4) ← at x3
  (timestampend, x5) ← at x4
  (requested, x6) ← read_requested 12 x5
  (compression_method, x7) ← at_int x6
  (stepsize, x8) ← at_int x7
  if equals_zero numdevices
      then undefined
      else ok record {
        devices = devices;
        nosamplesets = nosamplesets;
        timestampstart = timestampstart;
        timestampend = timestampend;
        requested = requested;
        compression_method = compression_method;
        stepsize = stepsize;
      }

abbrev pub has_zero : List ℕ → Bool
has_zero [] = false
has_zero (b ∷ bs) = let rest = has_zero bs in (b == 0) || rest

-- `recv` of what was sent into the 1024 bytes that were set to zero, and the string that begins
-- there. Without a zero among them the string has no end in the array.
unfoldable pub received : List ℕ → Option (List ℕ)
received sent =
    let bytes = take 1024 sent in
    if ltb (length bytes) 1024 || has_zero bytes then some (c_string bytes) else none

-- A conversion of an `uint64_t` to `int`, which keeps the low bits.
abbrev pub to_int : ℕ → ℤ
to_int n = int_of (n % 2 ^ 32)

-- The days after `i`, for the rounds of `for (int i=daystart;i<dayend;i++)`.
unfoldable pub days_after : ℕ → ℤ → List ℤ
days_after zero i = []
days_after (suc n) i = (i +ℤ pos 1) ∷ days_after n (i +ℤ pos 1)

unfoldable pub days_between : ℤ → ℤ → List ℤ
unfolding days_after
days_between daystart dayend = daystart ∷ days_after (to_ℕ (dayend +ℤ opposite daystart)) daystart

-- The part of the query that is the same for all devices. The end stands in it as it was sent.
pub record Window : Type 0 where
  pub day : List ℤ
  pub timestamp_from : ℕ
  pub timestamp_end : List ℕ
  pub skip : ℕ

unfoldable pub window_of : List ℕ → List ℕ → Window
unfolding days_between
window_of timestampstart timestampend =
    let tmp = read_u64 timestampstart in
    let back = (tmp + 2 ^ 64 - 999) % 2 ^ 64 in
    record {
      day = days_between (to_int (back / 86400000)) (to_int (read_u64 timestampend / 86400000));
      timestamp_from = back;
      timestamp_end = timestampend;
      skip = samples_to_skip tmp;
    }

-- The fields of the string, and the window that they give.
unfoldable pub request_of : Option (List ℕ) → Result (Fields × Window)
unfolding split
request_of none = undefined
request_of (some s) =
    parse_fields (split s) >>= λ f. ok (f, window_of f.timestampstart f.timestampend)

unfoldable pub parse_request : List ℕ → Result (Fields × Window)
unfolding request_of
parse_request sent = request_of (received sent)
