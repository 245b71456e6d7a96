-- ===== src/Ftp/Discovery/Tests.antt =====
-- Passes over a directory of the 3rd of January 1970.
use sparcs.Prelude.{
  ℕ, ◌+◌, ◌/◌, ◌%◌, ◌≡◌, refl, arith, true, false, none, some, List, [], ◌∷◌, inl, inr,
}
use sparcs.Ftp.DataDir.{DataDir, Clock, current, proposed, is_data_dir_at_present, inc_data_dir}
use sparcs.Ftp.Transfer.{Presence, file, dir_present, ftp_not_resp, dir_not_present}
use sparcs.Ftp.FileTime.{create_time_from_data_dir, mk_gmtime}
use sparcs.Ftp.Discovery.{Discovery, Answers, catch_up, process_upmu_data}
use sparcs.Ftp.Discovery.Start.{Site, search}
use sparcs.Ftp.Discovery.Start.Ending.{AtPresentWithin, Ends, search-Ends}
use sparcs.Ftp.Discovery.Files.{IsFresh}
use sparcs.Ftp.Discovery.Once.{OffersOnce, process_upmu_data-IsFresh, process_upmu_data-OffersOnce}
use sparcs.Ftp.Discovery.Dirs.{age_of}
use sparcs.Ftp.Discovery.Lost.{IsSearching}

-- A clock for the first days of January 1970, which is enough here.
abbrev january : Clock
january = record {
  gmtime =
      λ t. record { tm_year = 70; tm_mon = 0; tm_mday = t / 86400 + 1; tm_hour = t / 3600 % 24 };
}

abbrev evening : DataDir
evening = record {
  year = 1970;
  month = 1;
  day = 3;
  hour = 20;
  dir_name = [];
  epoch_day = 2;
  db_id = 7;
  state = current;
}

-- "a_1970-1-3-20-0-0.dat"
abbrev waiting_file : List ℕ
waiting_file =
    97 ∷ 95 ∷ 49 ∷ 57 ∷ 55 ∷ 48 ∷ 45 ∷ 49 ∷ 45 ∷ 51 ∷ 45 ∷ 50 ∷ 48 ∷ 45 ∷ 48 ∷ 45 ∷ 48 ∷ 46 ∷ 100
    ∷ 97 ∷ 116 ∷ []

abbrev accessed : Discovery
accessed = record {
  data_dir = evening;
  data_dir_valid = true;
  data_dir_access_in_progress = true;
  most_recent_data_file_name_valid = false;
  most_recent_data_file_name = [];
  most_recent_data_file_length = 0;
  data_files_in_dir = waiting_file ∷ [];
  data_files_processed = [];
  scan_mode = catch_up;
}

-- Half an hour into the directory's hour, with `count` buffers outstanding.
abbrev answers : ℕ → Presence → Answers
answers count p = record {
  time_of_file = 246600;
  time_of_dir = 246600;
  time_of_present = 259000;
  listing = none;
  shared_in_mem_data_buffer_cnt = count;
  data_file_length = none;
  data_record_id = some 3;
  data_file = file (0 ∷ 0 ∷ 240 ∷ 66 ∷ 226 ∷ 7 ∷ []) 6;
  data_record_released = true;
  dir_record_released = true;
  presence = p;
  dir_record_id = some 8;
}

accessed-IsFresh : IsFresh accessed
accessed-IsFresh s = ground arith

process-IsFresh_example : IsFresh ((process_upmu_data january (answers 2 dir_present) accessed).0)
process-IsFresh_example =
    process_upmu_data-IsFresh january (answers 2 dir_present) accessed accessed-IsFresh

process-OffersOnce_example :
    OffersOnce accessed (process_upmu_data january (answers 2 dir_present) accessed)
process-OffersOnce_example =
    process_upmu_data-OffersOnce january (answers 2 dir_present) accessed refl refl accessed-IsFresh

young : age_of (answers 2 dir_present) evening ≡ 1800
unfolding create_time_from_data_dir mk_gmtime
young = refl

abbrev searching : Discovery
searching = record accessed {
  data_dir = record evening { state = proposed };
  data_dir_valid = false;
}

searching-IsSearching : IsSearching january (answers 2 ftp_not_resp) searching
unfolding is_data_dir_at_present
searching-IsSearching = (refl, refl, refl)

next_not_present :
    is_data_dir_at_present january 259000 ((inc_data_dir january 259000 searching.data_dir).0)
    ≡ false
unfolding is_data_dir_at_present inc_data_dir
next_not_present = refl

-- A uPMU without directories, in the hour after the next.
abbrev empty_site : Site
empty_site = record {
  clock = january;
  now = 252000;
  presence = λ name. dir_not_present;
  new_id = some 1;
  abandon_ok = true;
}

two_hours : AtPresentWithin 2 empty_site evening
unfolding inc_data_dir is_data_dir_at_present
two_hours = inr (inl refl)

search-Ends_example : Ends empty_site (search 3 empty_site evening [])
search-Ends_example = search-Ends 3 2 empty_site evening [] (omega arith) two_hours refl
