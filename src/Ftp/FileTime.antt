-- ===== src/Ftp/FileTime.antt =====
-- Times from names: `_mkgmtime` of ftp/uPMUgateway/uPMUgmtime.cpp, and `createTimeFromDataDir` and
-- `createTimeFromDataFileName` of ftp/serviceDataDiscovery/upmuFtpAccess.cpp. A string is the list
-- of its character codes; `none` is an exception.
pub mod Days
mod Tests
use sparcs.Prelude.{
  ℕ, zero, suc, ◌+◌, ◌-◌, ◌*◌, ◌^◌, Bool, true, false, ◌&&◌, ◌||◌, Option, none, some, List, [],
  ◌∷◌, ◌++◌, length, get_or, drop, take, ltb, leb, ◌==◌, if◌then◌else◌, u32,
}
use mathlib.Core.Option
use sparcs.Prelude.Ints.{
  ℤ, pos, negsuc, sub_ℤ, neg, ◌+ℤ◌, opposite, scale, quot, rem, is_negative, to_ℕ, to_u32,
}
use sparcs.Ftp.DataDir.{DataDir}
use sparcs.Prelude.Text.{flush, value_or, digits_value, skip_space}

-- The fields of `struct tm` that are set: the year since 1900, and the month from 0.
pub record BrokenTime : Type 0 where
  pub tm_year : ℤ
  pub tm_mon : ℤ
  pub tm_mday : ℕ
  pub tm_hour : ℕ
  pub tm_min : ℕ
  pub tm_sec : ℕ

-- Days before a month in a year that is no leap year.
abbrev pub month_day : List ℕ
month_day = 0 ∷ 31 ∷ 59 ∷ 90 ∷ 120 ∷ 151 ∷ 181 ∷ 212 ∷ 243 ∷ 273 ∷ 304 ∷ 334 ∷ []

-- The months 0 to 11, and the year that they count in.
abbrev pub normal_month : BrokenTime → ℤ
normal_month t = let month = rem t.tm_mon 12 in if is_negative month then month +ℤ pos 12 else month

abbrev pub normal_year : BrokenTime → ℤ
normal_year t =
    let month = rem t.tm_mon 12 in
    let year = t.tm_year +ℤ quot t.tm_mon 12 in if is_negative month then year +ℤ neg 1 else year

abbrev pub year_for_leap : BrokenTime → ℤ
year_for_leap t = if ltb 1 (to_ℕ (normal_month t)) then normal_year t +ℤ pos 1 else normal_year t

-- The sum of the days.
abbrev pub days_of : ℕ → ℕ → ℤ → ℤ → ℤ
days_of month mday year leap =
    pos (get_or month_day month 0 + mday)
    +ℤ neg 1
    +ℤ scale 365 (year +ℤ neg 70)
    +ℤ quot (leap +ℤ neg 69) 4
    +ℤ opposite (quot (leap +ℤ neg 1) 100)
    +ℤ quot (leap +ℤ pos 299) 400

-- The value of an `unsigned int` as an `int`.
abbrev pub int_of : ℕ → ℤ
int_of n = if ltb n (2 ^ 31) then pos n else negsuc (2 ^ 32 - 1 - n)

-- A sum of `int`s wraps, so that it is enough to wrap it once. The quotients are taken of years,
-- which have room for what is added to them.
abbrev pub wrap_int : ℤ → ℤ
wrap_int z = int_of (to_u32 z)

unfoldable pub mk_gmtime : BrokenTime → ℤ
mk_gmtime t =
    let rt = wrap_int (
      pos t.tm_sec
      +ℤ scale 60 (
          pos t.tm_min
          +ℤ scale 60 (
              pos t.tm_hour
              +ℤ scale 24 (
                  days_of (to_ℕ (normal_month t)) t.tm_mday (normal_year t) (year_for_leap t))))) in
    if is_negative rt then neg 1 else rt

unfoldable pub create_time_from_data_dir : DataDir → ℕ
create_time_from_data_dir dd = to_u32 (
    mk_gmtime record {
      tm_year = int_of (u32 (dd.year + 2 ^ 32 - 1900));
      tm_mon = int_of (u32 (dd.month + 2 ^ 32 - 1));
      tm_mday = dd.day;
      tm_hour = dd.hour;
      tm_min = 0;
      tm_sec = 0;
    })

-- `find(underscore)` and `erase(0, n + 1)`: what stands behind the first '_', or all.
abbrev pub behind_underscore : List ℕ → Option (List ℕ)
behind_underscore [] = none
behind_underscore (c ∷ cs) = let rest = behind_underscore cs in if c == 95 then some cs else rest

abbrev pub starts_dot_dat : List ℕ → Bool
starts_dot_dat (a ∷ b ∷ c ∷ d ∷ cs) = (a == 46) && (b == 100) && (c == 97) && (d == 116)
starts_dot_dat _ = false

-- `find(dotDat)` and `erase(n, length() - 1)`. Without ".dat", `erase` throws. At the very front,
-- the last character stays.
abbrev pub before_dot_dat : List ℕ → Option (List ℕ)
before_dot_dat [] = none
before_dot_dat (c ∷ cs) =
    let rest = before_dot_dat cs in
    if starts_dot_dat (c ∷ cs) then some [] else Option.map (◌∷◌ c) rest

abbrev pub cut_dot_dat : List ℕ → Option (List ℕ)
cut_dot_dat s = if starts_dot_dat s then some (drop (length s - 1) s) else before_dot_dat s

-- The tokens between the signs '-', none of them empty, behind the part `part` of the first.
abbrev pub dash_tokens : List ℕ → List ℕ → List (List ℕ)
dash_tokens part [] = flush part
dash_tokens part (c ∷ cs) =
    let after = dash_tokens [] cs in
    let within = dash_tokens (part ++ c ∷ []) cs in if c == 45 then flush part ++ after else within

-- `std::stoi` of a token, which holds no '-': white space, a sign '+', and the digits of an `int`.
abbrev pub skip_plus : List ℕ → List ℕ
skip_plus [] = []
skip_plus (c ∷ cs) = if c == 43 then cs else c ∷ cs

abbrev pub stoi : List ℕ → Option ℕ
stoi s = elim (digits_value none (skip_plus (skip_space s))) [
  | none ↦ none
  | some n ↦ if ltb n (2 ^ 31) then some n else none
]

-- The first six tokens as numbers. The code reads them in turn, whether there are six or not.
abbrev pub numbers : ℕ → List (List ℕ) → Option (List ℕ)
numbers zero ts = some []
numbers (suc n) [] = none
numbers (suc n) (t ∷ ts) = elim (stoi t) [
  | none ↦ none
  | some v ↦ Option.map (◌∷◌ v) (numbers n ts)
]

abbrev pub time_of_numbers : List ℕ → ℕ
time_of_numbers ns = to_u32 (
    mk_gmtime record {
      tm_year = pos (get_or ns 0 0) +ℤ neg 1900;
      tm_mon = pos (get_or ns 1 0) +ℤ neg 1;
      tm_mday = get_or ns 2 0;
      tm_hour = get_or ns 3 0;
      tm_min = get_or ns 4 0;
      tm_sec = get_or ns 5 0;
    })

unfoldable pub create_time_from_data_file_name : List ℕ → Option ℕ
create_time_from_data_file_name name =
    elim (cut_dot_dat (elim (behind_underscore name) [ none ↦ name | some s ↦ s ])) [
      | none ↦ none
      | some s ↦ Option.map time_of_numbers (numbers 6 (dash_tokens [] s))
    ]
