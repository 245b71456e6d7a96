-- ===== src/Ftp/DataDir.antt =====
-- The hourly data directories of a uPMU: upmuFtpAccess.h and upmuFtpAccess.cpp in
-- serviceDataDiscovery_C37. The clock of the C library is a parameter: `gmtime`, and the present
-- time where the code calls `time`. A string is the list of its character codes.
pub mod Hours
pub mod Name
mod Tests
use sparcs.Prelude.Text.{digits}
use sparcs.Prelude.{
  ℕ, zero, suc, ◌+◌, ◌-◌, ◌*◌, ◌/◌, ◌%◌, Bool, true, false, ◌&&◌, List, [], ◌∷◌, ◌++◌, length, ltb,
  ◌==◌, if◌then◌else◌, replicate, u32,
}

pub data DataDirState : Type 0 where
  current proposed abandoned processed unknown : DataDirState

pub record DataDir : Type 0 where
  pub year : ℕ
  pub month : ℕ
  pub day : ℕ
  pub hour : ℕ
  pub dir_name : List ℕ
  pub epoch_day : ℕ
  pub db_id : ℕ
  pub state : DataDirState

-- The fields of `struct tm` that the code reads.
pub record Tm : Type 0 where
  pub tm_year : ℕ
  pub tm_mon : ℕ
  pub tm_mday : ℕ
  pub tm_hour : ℕ

-- `gmtime` of a time that is not negative.
pub record Clock : Type 0 where
  pub gmtime : ℕ → Tm

-- `std::setw(w) << n` with the fill character `c`. An `unsigned int` has at most ten digits.
abbrev pub padded : ℕ → ℕ → ℕ → List ℕ
padded w c n = let s = digits 10 n in replicate (w - length s) c ++ s

-- "/upmu_data"
abbrev pub directory_prefix : List ℕ
directory_prefix = 47 ∷ 117 ∷ 112 ∷ 109 ∷ 117 ∷ 95 ∷ 100 ∷ 97 ∷ 116 ∷ 97 ∷ []

-- `DIRECTORY_PREFIX << "/" << std::setw(4) << dd->year << "/"`, with spaces as fill.
unfoldable pub create_dir_name_yr : DataDir → List ℕ
create_dir_name_yr dd = directory_prefix ++ 47 ∷ (padded 4 32 dd.year ++ 47 ∷ [])

-- "Month_", "/Day_" and "/Hour_" follow, each with a number of two places filled with zeros.
unfoldable pub create_dir_name_yr_mon : DataDir → List ℕ
create_dir_name_yr_mon dd =
    directory_prefix
    ++ 47
      ∷ (padded 4 32 dd.year
          ++ 47 ∷ 77 ∷ 111 ∷ 110 ∷ 116 ∷ 104 ∷ 95 ∷ (padded 2 48 dd.month ++ 47 ∷ []))

unfoldable pub create_dir_name_yr_mon_day : DataDir → List ℕ
create_dir_name_yr_mon_day dd =
    directory_prefix
    ++ 47
      ∷ (padded 4 32 dd.year
          ++ 47
            ∷ 77
            ∷ 111
            ∷ 110
            ∷ 116
            ∷ 104
            ∷ 95
            ∷ (padded 2 48 dd.month ++ 47 ∷ 68 ∷ 97 ∷ 121 ∷ 95 ∷ (padded 2 48 dd.day ++ 47 ∷ [])))

unfoldable pub create_dir_name_yr_mon_day_hr : DataDir → List ℕ
create_dir_name_yr_mon_day_hr dd =
    directory_prefix
    ++ 47
      ∷ (padded 4 32 dd.year
          ++ 47
            ∷ 77
            ∷ 111
            ∷ 110
            ∷ 116
            ∷ 104
            ∷ 95
            ∷ (padded 2 48 dd.month
                ++ 47
                  ∷ 68
                  ∷ 97
                  ∷ 121
                  ∷ 95
                  ∷ (padded 2 48 dd.day
                      ++ 47 ∷ 72 ∷ 111 ∷ 117 ∷ 114 ∷ 95 ∷ (padded 2 48 dd.hour ++ 47 ∷ []))))

-- DATA_DIR_AT_PRESENT is `true`, DATA_DIR_OK is `false`.
unfoldable pub is_data_dir_at_present : Clock → ℕ → DataDir → Bool
is_data_dir_at_present c now dd =
    let t = c.gmtime now in
    (dd.year == t.tm_year + 1900)
    && (dd.month == t.tm_mon + 1)
    && (dd.day == t.tm_mday)
    && (dd.hour == t.tm_hour)

unfoldable pub inc_data_dir : Clock → ℕ → DataDir → DataDir × Bool
inc_data_dir c now dd =
    let hour' = u32 (dd.hour + 1) % 24 in
    let day' = if hour' == 0 then u32 (dd.epoch_day + 1) else dd.epoch_day in
    let t = c.gmtime (u32 (day' * 86400)) in
    let dd' = record dd {
      hour = hour';
      epoch_day = day';
      year = t.tm_year + 1900;
      month = t.tm_mon + 1;
      day = t.tm_mday;
      state = proposed;
    } in
    let named = record dd' { dir_name = create_dir_name_yr_mon_day_hr dd' } in
    (named, is_data_dir_at_present c now named)
