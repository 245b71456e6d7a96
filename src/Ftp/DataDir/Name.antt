-- ===== src/Ftp/DataDir/Name.antt =====
-- The name of an hourly directory tells the hour.
use sparcs.Prelude.{ℕ, ◌+◌, ◌/◌, ◌%◌, ◌≤◌, ◌<◌, ◌≡◌, refl, ap, arith, [], ◌∷◌, get_or}
use native.Mathlib.Decide.{dec_lt}
use sparcs.Prelude.Text.Numerals.{one_digit, more_digits}
use sparcs.Ftp.DataDir.{DataDir, padded, create_dir_name_yr_mon_day_hr}

-- Two places filled with zeros, and four.
two_places : (n : ℕ) → n < 100 → padded 2 48 n ≡ (48 + n / 10) ∷ (48 + n % 10) ∷ []
two_places n h = elim (dec_lt n 10) [
  | yes p ↦
      let front : 0 ≡ n / 10 = omega arith in
      let back : n ≡ n % 10 = omega arith in
      rw (one_digit 9 n p) (λ i. (48 + front i) ∷ (48 + back i) ∷ [])
  | no p ↦ rw (more_digits 9 n (omega arith), one_digit 8 (n / 10) (omega arith)) refl
]

four_places :
    (n : ℕ)
    → 1000 ≤ n
    → n < 10000
    → padded 4 32 n
      ≡ (48 + n / 10 / 10 / 10) ∷ (48 + n / 10 / 10 % 10) ∷ (48 + n / 10 % 10) ∷ (48 + n % 10) ∷ []
four_places n low h =
    rw
      (
        more_digits 9 n (omega arith),
        more_digits 8 (n / 10) (omega arith),
        more_digits 7 (n / 10 / 10) (omega arith),
        one_digit 6 (n / 10 / 10 / 10) (omega arith),
      )
      refl

-- The numbers that fit their places.
pub record IsDated (d : DataDir) : Type 0 where
  pub after : 1000 ≤ d.year
  pub before : d.year < 10000
  pub month_fits : d.month < 100
  pub day_fits : d.day < 100
  pub hour_fits : d.hour < 100

-- Two directories with years of four digits and other numbers below 100 have the same hourly
-- name only if they have the same year, month, day and hour.
pub create_dir_name_injective :
    (d e : DataDir)
    → IsDated d
    → IsDated e
    → create_dir_name_yr_mon_day_hr d ≡ create_dir_name_yr_mon_day_hr e
    → (d.year ≡ e.year) × (d.month ≡ e.month) × (d.day ≡ e.day) × (d.hour ≡ e.hour)
unfolding create_dir_name_yr_mon_day_hr
create_dir_name_injective d e f g h =
    let h' =
      rw
        (
          four_places d.year f.after f.before,
          four_places e.year g.after g.before,
          two_places d.month f.month_fits,
          two_places e.month g.month_fits,
          two_places d.day f.day_fits,
          two_places e.day g.day_fits,
          two_places d.hour f.hour_fits,
          two_places e.hour g.hour_fits,
        )
        at h in
    let at = λ (i : ℕ). ap (λ s. get_or s i 0) h' in
    (
      omega (arith, at 11, at 12, at 13, at 14),
      omega (arith, at 22, at 23),
      omega (arith, at 29, at 30),
      omega (arith, at 37, at 38),
    )
