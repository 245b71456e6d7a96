-- ===== src/Ftp/DataDir/Hours.antt =====
-- `incDataDir` moves a directory by one hour.
use sparcs.Prelude.{ℕ, zero, suc, ◌+◌, ◌*◌, ◌/◌, ◌%◌, ◌^◌, ◌<◌, ◌≡◌, refl, ap, arith, u32}
use sparcs.Ftp.DataDir.{DataDir, Clock, inc_data_dir, proposed, create_dir_name_yr_mon_day_hr}

abbrev pub hours : DataDir → ℕ
hours d = d.epoch_day * 24 + d.hour

-- Several steps.
abbrev pub steps : Clock → ℕ → ℕ → DataDir → DataDir
steps c now zero d = d
steps c now (suc n) d = steps c now n (inc_data_dir c now d).0

one_hour :
    (c : Clock) (now : ℕ) (d : DataDir)
    → d.hour < 24
    → hours d + 1 < 24 * 2 ^ 32
    → let r = (inc_data_dir c now d).0 in (hours r ≡ hours d + 1) × (r.hour < 24)
unfolding inc_data_dir
one_hour c now d h small = (ground arith, ground arith)

-- The directory of an hour since 1970, by the fields of `gmtime`, as `incDataDir` leaves it.
pub record IsHour (c : Clock) (n : ℕ) (d : DataDir) : Type 0 where
  pub year_of : d.year ≡ (c.gmtime (n / 24 * 86400)).tm_year + 1900
  pub month_of : d.month ≡ (c.gmtime (n / 24 * 86400)).tm_mon + 1
  pub day_of : d.day ≡ (c.gmtime (n / 24 * 86400)).tm_mday
  pub hour_of : d.hour ≡ n % 24
  pub epoch_day_of : d.epoch_day ≡ n / 24
  pub state_of : d.state ≡ proposed
  pub name_of : d.dir_name ≡ create_dir_name_yr_mon_day_hr d

-- The last day whose seconds fit an `unsigned int` is day 49710.
inc_data_dir-IsHour :
    (c : Clock) (now : ℕ) (d : DataDir)
    → d.hour < 24
    → hours d + 1 < 24 * 49711
    → IsHour c (hours d + 1) (inc_data_dir c now d).0
unfolding inc_data_dir create_dir_name_yr_mon_day_hr
inc_data_dir-IsHour c now d h small =
    let o = one_hour c now d h (omega arith) in
    let r = (inc_data_dir c now d).0 in
    let day : r.epoch_day ≡ (hours d + 1) / 24 = omega (arith, o.0, o.1) in
    let seconds : u32 (r.epoch_day * 86400) ≡ (hours d + 1) / 24 * 86400 =
      omega (arith, day, small) in
    let hour : r.hour ≡ (hours d + 1) % 24 = omega (arith, o.0, o.1) in
    record {
      year_of = ap (λ s. (c.gmtime s).tm_year + 1900) seconds;
      month_of = ap (λ s. (c.gmtime s).tm_mon + 1) seconds;
      day_of = ap (λ s. (c.gmtime s).tm_mday) seconds;
      hour_of = hour;
      epoch_day_of = day;
      state_of = refl;
      name_of = refl;
    }

-- From a directory with an hour below 24, one or more calls of `incDataDir` that stay within
-- the days whose seconds fit an `unsigned int` lead to the directory of exactly so many hours
-- later: it has that hour, the count of days, the year, month and day that `gmtime` has for
-- that day, the state `proposed`, and the name of just this directory.
pub steps_lem :
    (c : Clock) (now n : ℕ) (d : DataDir)
    → d.hour < 24
    → hours d + suc n < 24 * 49711
    → IsHour c (hours d + suc n) (steps c now (suc n) d)
steps_lem c now zero d h small = inc_data_dir-IsHour c now d h small
steps_lem c now (suc n) d h small =
    let next = (inc_data_dir c now d).0 in
    let one = one_hour c now d h (omega arith) in
    let e : hours next + suc n ≡ hours d + suc (suc n) = omega (arith, one.0) in
    rw e at (steps_lem c now n next one.1 (omega (arith, e)))
