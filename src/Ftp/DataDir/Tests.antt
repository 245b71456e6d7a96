-- ===== src/Ftp/DataDir/Tests.antt =====
-- A directory at the end of a day.
use sparcs.Prelude.{◌+◌, ◌/◌, ◌%◌, ◌≡◌, refl, arith, [], ◌∷◌}
use sparcs.Ftp.DataDir.{
  DataDir, Clock, current, processed, inc_data_dir, create_dir_name_yr_mon_day_hr,
}
use sparcs.Ftp.DataDir.Hours.{IsHour, steps, steps_lem}
use sparcs.Ftp.DataDir.Name.{IsDated, create_dir_name_injective}

-- A clock for the first days of January 1970, which is enough here.
abbrev january : Clock
january = record {
  gmtime =
      λ t. record { tm_year = 70; tm_mon = 0; tm_mday = t / 86400 + 1; tm_hour = t / 3600 % 24 };
}

abbrev late : DataDir
late = record {
  year = 1970;
  month = 1;
  day = 3;
  hour = 23;
  dir_name = [];
  epoch_day = 2;
  db_id = 0;
  state = current;
}

-- Five hours on: the fourth of January, at four.
steps_lem_example : IsHour january 76 (steps january 0 5 late)
steps_lem_example = steps_lem january 0 4 late (omega arith) (omega arith)

late-IsDated : IsDated late
late-IsDated = record {
  after = omega arith;
  before = omega arith;
  month_fits = omega arith;
  day_fits = omega arith;
  hour_fits = omega arith;
}

-- Another record of the same directory.
abbrev found_late : DataDir
found_late = record late { db_id = 4; state = processed; epoch_day = 0 }

create_dir_name_example :
    (late.year ≡ found_late.year)
    × (late.month ≡ found_late.month)
    × (late.day ≡ found_late.day)
    × (late.hour ≡ found_late.hour)
unfolding create_dir_name_yr_mon_day_hr
create_dir_name_example =
    create_dir_name_injective late found_late late-IsDated
      (record {
        after = omega arith;
        before = omega arith;
        month_fits = omega arith;
        day_fits = omega arith;
        hour_fits = omega arith;
      })
      refl

-- The next directory is the first hour of the next day.
next_day : (inc_data_dir january 0 late).0.day ≡ 4
unfolding inc_data_dir
next_day = refl

-- "/upmu_data/1970/Month_01/Day_03/Hour_23/"
late_name :
    create_dir_name_yr_mon_day_hr late
    ≡ 47 ∷ 117 ∷ 112 ∷ 109 ∷ 117 ∷ 95 ∷ 100 ∷ 97 ∷ 116 ∷ 97 ∷ 47 ∷ 49 ∷ 57 ∷ 55 ∷ 48 ∷ 47 ∷ 77 ∷ 111
      ∷ 110 ∷ 116 ∷ 104 ∷ 95 ∷ 48 ∷ 49 ∷ 47 ∷ 68 ∷ 97 ∷ 121 ∷ 95 ∷ 48 ∷ 51 ∷ 47 ∷ 72 ∷ 111 ∷ 117
      ∷ 114 ∷ 95 ∷ 50 ∷ 51 ∷ 47 ∷ []
unfolding create_dir_name_yr_mon_day_hr
late_name = refl
