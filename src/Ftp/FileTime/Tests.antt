-- ===== src/Ftp/FileTime/Tests.antt =====
-- Times of 2018, of a leap year, and of a file's name.
use sparcs.Prelude.{ℕ, ◌≡◌, refl, some, none, List, [], ◌∷◌, arith}
use sparcs.Prelude.Ints.{pos}
use sparcs.Ftp.DataDir.{DataDir, proposed}
use sparcs.Ftp.FileTime.{mk_gmtime, create_time_from_data_dir, create_time_from_data_file_name}
use sparcs.Ftp.FileTime.Days.{mk_gmtime-days}

abbrev starting_dir : DataDir
starting_dir = record {
  year = 2018;
  month = 7;
  day = 5;
  hour = 22;
  dir_name = [];
  epoch_day = 0;
  db_id = 0;
  state = proposed;
}

time_of_starting_dir : create_time_from_data_dir starting_dir ≡ 1530828000
unfolding create_time_from_data_dir mk_gmtime
time_of_starting_dir = refl

-- A year before 1900 wraps around, and its time is -1.
time_of_no_dir : create_time_from_data_dir (record starting_dir { year = 0 }) ≡ 4294967295
unfolding create_time_from_data_dir mk_gmtime
time_of_no_dir = refl

-- "u_2018-7-5-22-0-0.dat"
abbrev file_name : List ℕ
file_name =
    117 ∷ 95 ∷ 50 ∷ 48 ∷ 49 ∷ 56 ∷ 45 ∷ 55 ∷ 45 ∷ 53 ∷ 45 ∷ 50 ∷ 50 ∷ 45 ∷ 48 ∷ 45 ∷ 48 ∷ 46 ∷ 100
    ∷ 97 ∷ 116 ∷ []

time_of_file : create_time_from_data_file_name file_name ≡ some 1530828000
unfolding create_time_from_data_file_name mk_gmtime
time_of_file = refl

-- Without ".dat", or with a word for a number, an exception.
time_of_no_file : create_time_from_data_file_name (117 ∷ 95 ∷ 50 ∷ []) ≡ none
unfolding create_time_from_data_file_name mk_gmtime
time_of_no_file = refl

-- The 29th of February 2016, at noon.
mk_gmtime-days_example :
    mk_gmtime record {
      tm_year = pos 116;
      tm_mon = pos 1;
      tm_mday = 29;
      tm_hour = 12;
      tm_min = 0;
      tm_sec = 0;
    }
    ≡ pos 1456747200
mk_gmtime-days_example =
    mk_gmtime-days 46 1 29 12 0 0 (omega arith) (omega arith) (omega arith) (omega arith)
      (omega arith) (omega arith) (omega arith)
