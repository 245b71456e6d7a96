-- ===== src/Reader/Client.antt =====
-- The client of the reader: `main` and `delta_t_chucksize` of cassspeedclient/main.cpp. An argument
-- is the list of its character codes. The resolver of host names is a parameter, and so is what the
-- platform makes of an infinite `double` that becomes a `long`.
pub mod Plan
pub mod Loop
pub mod Chunks
mod Tests
use sparcs.Prelude.{
  ℕ, zero, suc, ◌+◌, ◌-◌, ◌*◌, ◌/◌, ◌%◌, ◌^◌, Bool, true, false, not, ◌&&◌, ◌||◌, Option, none,
  some, List, [], ◌∷◌, ◌++◌, length, map, ltb, leb, ◌==◌, if◌then◌else◌,
}
use sparcs.Prelude.Ints.{ℤ, pos, negsuc, neg, opposite, scale, is_negative, to_ℕ, to_u32, ◌+ℤ◌}
use sparcs.Prelude.Text.{codes, same_string, digits_value, skip_space, to_string}
use sparcs.Reader.Request.{
  Result, ok, invalid_argument, out_of_range, undefined, ◌>>=◌, read_number, stoi, split,
}
use sparcs.Reader.Response.{check_bit}

-- `isValidIpAddress` and `HostToIp`, which ask the C library.
pub record Resolver : Type 0 where
  pub is_valid_ip_address : List ℕ → Bool
  pub host_to_ip : List ℕ → List ℕ

pub record Options : Type 0 where
  pub timestampstart : List ℕ
  pub timestampend : List ℕ
  pub deviceids : List ℕ
  pub requested : List ℕ
  pub compression_method : List ℕ
  pub stepsize : List ℕ
  pub calc_delta_t : List ℕ
  pub filename : List ℕ
  pub format : List ℕ
  pub quiet : Bool
  pub host : List ℕ
  pub host_port : ℤ

-- How the program ends before the loop, or what it begins the loop with.
pub data Start {ℓ} (A : Type ℓ) : Type ℓ where
  go : A → Start A
  exit : ℤ → Start A
  -- an exception that nothing catches
  uncaught : Start A
  -- a division by 0
  faulted : Start A

infixl 5 ◌>>=ₛ◌
abbrev pub ◌>>=ₛ◌ {ℓ κ} : {A : Type ℓ} {B : Type κ} → Start A → (A → Start B) → Start B
go a >>=ₛ f = f a
exit n >>=ₛ f = exit n
uncaught >>=ₛ f = uncaught
faulted >>=ₛ f = faulted

abbrev pub int_or_zero : Option (Bool × ℕ) → ℤ
int_or_zero none = pos 0
int_or_zero (some (true, n)) = neg n
int_or_zero (some (false, n)) = pos n

-- `atoi`, for values that an `int` holds.
unfoldable pub atoi : List ℕ → ℤ
unfolding read_number
atoi s = int_or_zero (read_number s)

abbrev pub nonzero : ℤ → Bool
nonzero (pos n) = not (n == 0)
nonzero (negsuc n) = true

-- The chain of `else if` over the names of the options; `none` is an unknown one.
unfoldable pub set_option : Resolver → List ℕ → List ℕ → Options → Option Options
unfolding atoi
set_option R name v o =
    if same_string name (codes "--timestart")
    then some (record o { timestampstart = v })
    else if same_string name (codes "--quiet")
    then some (record o { quiet = nonzero (atoi v) })
    else if same_string name (codes "--timeend")
    then some (record o { timestampend = v })
    else if same_string name (codes "--host")
    then some (record o { host = if R.is_valid_ip_address v then v else R.host_to_ip v })
    else if same_string name (codes "--port")
    then some (record o { host_port = atoi v })
    else if same_string name (codes "--deviceNum")
    then some o
    else if same_string name (codes "--deviceIds")
    then some (record o { deviceids = v })
    else if same_string name (codes "--datacode")
    then some (record o { requested = v })
    else if same_string name (codes "--stepsize")
    then some (record o { stepsize = v })
    else if same_string name (codes "--delta_t")
    then some (record o { calc_delta_t = v })
    else if same_string name (codes "--compress")
    then some (record o { compression_method = v })
    else if same_string name (codes "--filename")
    then some (record o { filename = v })
    else if same_string name (codes "--format")
    then some (record o { format = v })
    else none

-- The loop over `argv`, from the first argument.
unfoldable pub read_options : Resolver → List (List ℕ) → Options → Start Options
unfolding set_option
read_options R [] o = go o
read_options R (a ∷ []) o = if same_string a (codes "--help") then exit (pos 1) else exit (pos 2)
read_options R (a ∷ v ∷ rest) o =
    if same_string a (codes "--help")
    then exit (pos 1)
    else elim (set_option R a v o) [ none ↦ exit (pos 2) | some o' ↦ read_options R rest o' ]

-- The test of `argc` before the loop.
unfoldable pub enough_arguments : List (List ℕ) → Bool
enough_arguments [] = false
enough_arguments (a ∷ []) = same_string a (codes "--help")
enough_arguments (a ∷ b ∷ rest) = true

-- The defaults; `ip` is what the name of the server resolves to.
abbrev pub defaults : List ℕ → Options
defaults ip = record {
  timestampstart = [];
  timestampend = [];
  deviceids = [];
  requested = [];
  compression_method = [];
  stepsize = [];
  calc_delta_t = codes "0";
  filename = codes "example";
  format = codes "csv";
  quiet = false;
  host = ip;
  host_port = pos 9000;
}
