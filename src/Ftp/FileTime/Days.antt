-- ===== src/Ftp/FileTime/Days.antt =====
-- `_mkgmtime` against the calendar, counted year by year and month by month from 1970.
use sparcs.Prelude.{
  ℕ, zero, suc, ◌+◌, ◌-◌, ◌*◌, ◌/◌, ◌%◌, ◌^◌, ◌<◌, ◌≤◌, ◌≡◌, refl, ap, ◌∙◌, Bool, true, false, not,
  ◌&&◌, ◌||◌, List, [], ◌∷◌, get_or, ltb, leb, ◌==◌, if◌then◌else◌, arith, Bool-cases, inl, inr,
}
use sparcs.Prelude.Ints.{pos, neg, ◌+ℤ◌, sub_ℤ_le}
use sparcs.Ftp.FileTime.{month_day, days_of, int_of, wrap_int, mk_gmtime}

-- The Gregorian rule.
abbrev pub is_leap : ℕ → Bool
is_leap year = (year % 4 == 0) && (not (year % 100 == 0) || (year % 400 == 0))

abbrev pub days_in_year : ℕ → ℕ
days_in_year year = if is_leap year then 366 else 365

-- The days from 1970 to the year that begins `k` years later.
abbrev pub days_before_year : ℕ → ℕ
days_before_year zero = 0
days_before_year (suc k) = days_before_year k + days_in_year (1970 + k)

-- The lengths of the months.
abbrev pub days_in_month : Bool → ℕ → ℕ
days_in_month leap m =
    get_or (31 ∷ (if leap then 29 else 28) ∷ 31 ∷ 30 ∷ 31 ∷ 30 ∷ 31 ∷ 31 ∷ 30 ∷ 31 ∷ 30 ∷ 31 ∷ []) m
      0

abbrev pub days_before_month : Bool → ℕ → ℕ
days_before_month leap zero = 0
days_before_month leap (suc m) = days_before_month leap m + days_in_month leap m

abbrev leap_day : Bool → ℕ
leap_day leap = if leap then 1 else 0

days_in_year_leap : (year : ℕ) → days_in_year year ≡ 365 + leap_day (is_leap year)
days_in_year_leap year = ground arith

leap_step :
    (k : ℕ)
    → (k + 2) / 4 + (k + 370) / 400 + (k + 69) / 100
      ≡ leap_day (is_leap (1970 + k)) + (k + 1) / 4 + (k + 369) / 400 + (k + 70) / 100
leap_step k = ground arith

days_before_year_closed :
    (k : ℕ) → days_before_year k + (k + 69) / 100 ≡ 365 * k + (k + 1) / 4 + (k + 369) / 400
days_before_year_closed zero = refl
days_before_year_closed (suc k) =
    let closed = days_before_year_closed k in
    let step = leap_step k in let year = days_in_year_leap (1970 + k) in omega arith

days_before_month_closed :
    (leap : Bool) (m : ℕ)
    → m < 12
    → days_before_month leap m ≡ get_or month_day m 0 + (if ltb 1 m then leap_day leap else 0)
days_before_month_closed true zero h = refl
days_before_month_closed true (suc zero) h = refl
days_before_month_closed true (suc (suc zero)) h = refl
days_before_month_closed true (suc (suc (suc zero))) h = refl
days_before_month_closed true (suc (suc (suc (suc zero)))) h = refl
days_before_month_closed true (suc (suc (suc (suc (suc zero))))) h = refl
days_before_month_closed true (suc (suc (suc (suc (suc (suc zero)))))) h = refl
days_before_month_closed true (suc (suc (suc (suc (suc (suc (suc zero))))))) h = refl
days_before_month_closed true (suc (suc (suc (suc (suc (suc (suc (suc zero)))))))) h = refl
days_before_month_closed true (suc (suc (suc (suc (suc (suc (suc (suc (suc zero))))))))) h = refl
days_before_month_closed true (suc (suc (suc (suc (suc (suc (suc (suc (suc (suc zero)))))))))) h =
    refl
days_before_month_closed true (suc (suc (suc (suc (suc (suc (suc (suc (suc (suc (suc zero)))))))))))
      h =
    refl
days_before_month_closed false zero h = refl
days_before_month_closed false (suc zero) h = refl
days_before_month_closed false (suc (suc zero)) h = refl
days_before_month_closed false (suc (suc (suc zero))) h = refl
days_before_month_closed false (suc (suc (suc (suc zero)))) h = refl
days_before_month_closed false (suc (suc (suc (suc (suc zero))))) h = refl
days_before_month_closed false (suc (suc (suc (suc (suc (suc zero)))))) h = refl
days_before_month_closed false (suc (suc (suc (suc (suc (suc (suc zero))))))) h = refl
days_before_month_closed false (suc (suc (suc (suc (suc (suc (suc (suc zero)))))))) h = refl
days_before_month_closed false (suc (suc (suc (suc (suc (suc (suc (suc (suc zero))))))))) h = refl
days_before_month_closed false (suc (suc (suc (suc (suc (suc (suc (suc (suc (suc zero)))))))))) h =
    refl
days_before_month_closed false
      (suc (suc (suc (suc (suc (suc (suc (suc (suc (suc (suc zero))))))))))) h =
    refl
days_before_month_closed leap
      (suc (suc (suc (suc (suc (suc (suc (suc (suc (suc (suc (suc m)))))))))))) h =
    absurd (omega arith)

pos-neg : (a q r t : ℕ) → q ≤ a → a + r ≡ q + t → pos a +ℤ neg q +ℤ pos r ≡ pos t
pos-neg a zero r t h e = ap pos (omega arith)
pos-neg a (suc q) r t h e = let s = sub_ℤ_le a (suc q) h in rw s (ap pos (omega arith))

-- The sum of the days in terms of what the code divides.
days_of_closed :
    (m mday k l t : ℕ)
    → 0 < mday
    → 70 ≤ l
    → l ≤ 71 + k
    → get_or month_day m 0 + (mday - 1) + 365 * k + (l - 69) / 4 + (l + 299) / 400
      ≡ (l - 1) / 100 + t
    → days_of m mday (pos (70 + k)) (pos l) ≡ pos t
days_of_closed m mday k l t p h b e =
    let e1 = sub_ℤ_le (get_or month_day m 0 + mday) 1 (omega arith) in
    let e2 = sub_ℤ_le (70 + k) 70 (omega arith) in
    let e3 = sub_ℤ_le l 69 (omega arith) in
    let e4 = sub_ℤ_le l 1 (omega arith) in
    rw (e1, e2, e3, e4, days_of)
      (pos-neg (get_or month_day m 0 + mday - 1 + 365 * (70 + k - 70) + (l - 69) / 4)
        ((l - 1) / 100) ((l + 299) / 400) t (omega arith) (omega arith))

-- The days of a date: those before the year, those before the month, and those of the month.
days_of_date :
    (m mday k : ℕ)
    → m < 12
    → 0 < mday
    → days_of m mday (pos (70 + k)) (if ltb 1 m then pos (70 + k + 1) else pos (70 + k))
      ≡ pos (days_before_year k + days_before_month (is_leap (1970 + k)) m + (mday - 1))
days_of_date m mday k h p =
    let year = days_before_year_closed k in
    let month = days_before_month_closed (is_leap (1970 + k)) m h in
    let step = leap_step k in
    let t = days_before_year k + days_before_month (is_leap (1970 + k)) m + (mday - 1) in
    elim (Bool-cases (ltb 1 m)) [
      | inl e ↦
          let late : days_before_month (is_leap (1970 + k)) m
              ≡ get_or month_day m 0 + leap_day (is_leap (1970 + k)) =
            month ∙ rw e in
          let a : 70 + k + 1 - 69 ≡ k + 2 = omega arith in
          let b : 70 + k + 1 + 299 ≡ k + 370 = omega arith in
          let c : 70 + k + 1 - 1 ≡ k + 70 = omega arith in
          rw e (
            days_of_closed m mday k (70 + k + 1) t p (omega arith) (omega arith)
              (rw (a, b, c) (omega arith)))
      | inr e ↦
          let early : days_before_month (is_leap (1970 + k)) m ≡ get_or month_day m 0 + 0 =
            month ∙ rw e in
          let a : 70 + k - 69 ≡ k + 1 = omega arith in
          let b : 70 + k + 299 ≡ k + 369 = omega arith in
          let c : 70 + k - 1 ≡ k + 69 = omega arith in
          rw e (
            days_of_closed m mday k (70 + k) t p (omega arith) (omega arith)
              (rw (a, b, c) (omega arith)))
    ]

-- A number below 2 ^ 31 stays as it is in an `int`.
wrap_int_small : (n : ℕ) → n < 2 ^ 31 → wrap_int (pos n) ≡ pos n
wrap_int_small n h =
    let a : n % 4294967296 ≡ n = omega arith in
    let b : ltb n (2 ^ 31) ≡ true = ground arith in rw (a, b, int_of) refl

abbrev none_above : ℕ → List ℕ → Bool
none_above b [] = true
none_above b (x ∷ xs) = leb x b && none_above b xs

get_or_le : (b : ℕ) (xs : List ℕ) (i : ℕ) → none_above b xs ≡ true → get_or xs i 0 ≤ b
get_or_le b [] i h = omega arith
get_or_le b (x ∷ xs) zero h = ground arith
get_or_le b (x ∷ xs) (suc i) h = get_or_le b xs i (ground arith)

days_before_month_le : (leap : Bool) (m : ℕ) → m < 12 → days_before_month leap m ≤ 335
days_before_month_le leap m h =
    let closed = days_before_month_closed leap m h in
    let le = get_or_le 334 month_day m refl in ground arith

seconds_fit :
    (k m mday hour minute sec : ℕ)
    → k < 68
    → m < 12
    → mday ≤ 31
    → hour < 24
    → minute < 60
    → sec < 60
    → sec
        + 60
          * (minute
              + 60
                * (hour
                    + 24
                      * (days_before_year k
                          + days_before_month (is_leap (1970 + k)) m
                          + (mday - 1))))
      < 2 ^ 31
seconds_fit k m mday hour minute sec y h d hh mm ss =
    let year = days_before_year_closed k in
    let month = days_before_month_le (is_leap (1970 + k)) m h in omega arith

-- For a month from 0 to 11 and a day from 1 to 31 of the years 1970 to 2037, an hour below 24,
-- and minutes and seconds below 60, `_mkgmtime` gives the seconds of the time of day and of the
-- days before the year, counted year by year with the rule for leap years, before the month,
-- counted month by month, and before the day; the sum does not overflow.
pub mk_gmtime-days :
    (k m mday hour minute sec : ℕ)
    → k < 68
    → m < 12
    → 0 < mday
    → mday ≤ 31
    → hour < 24
    → minute < 60
    → sec < 60
    → mk_gmtime record {
      tm_year = pos (70 + k);
      tm_mon = pos m;
      tm_mday = mday;
      tm_hour = hour;
      tm_min = minute;
      tm_sec = sec;
    }
      ≡ pos (
          sec
          + 60
            * (minute
                + 60
                  * (hour
                      + 24
                        * (days_before_year k
                            + days_before_month (is_leap (1970 + k)) m
                            + (mday - 1)))))
unfolding mk_gmtime
mk_gmtime-days k m mday hour minute sec y h p d hh mm ss =
    let a : m % 12 ≡ m = omega arith in
    let b : m / 12 ≡ 0 = omega arith in
    let c : 70 + k + 0 ≡ 70 + k = omega arith in
    let e = days_of_date m mday k h p in
    let f = wrap_int_small _ (seconds_fit k m mday hour minute sec y h d hh mm ss) in
    rw (a, b, c, e) (rw f refl)
