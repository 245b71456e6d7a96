-- ===== src/Ftp/Discovery/Start.antt =====
-- The directory that the discovery service begins with: `getCurrentDirectory` and
-- `getCurrentDataFileSet` of ftp/serviceDataDiscovery/serviceDataDiscovery.cpp. The rows of the database are arguments, and so
-- are the directories that the uPMU has and the present time, which stay while the search runs.
pub mod Ending
use sparcs.Prelude.{
  ℕ, zero, suc, ◌/◌, Bool, true, false, ◌||◌, ◌&&◌, not, Option, none, some, List, [], ◌∷◌, ◌++◌,
  ltb, ◌==◌, if◌then◌else◌,
}
use sparcs.Ftp.DataDir.{
  DataDir, DataDirState, current, proposed, abandoned, processed, unknown, Clock, inc_data_dir,
  create_dir_name_yr_mon_day_hr,
}
use sparcs.Ftp.FileTime.{create_time_from_data_dir}
use sparcs.Ftp.Transfer.{Presence, dir_present, ftp_not_resp, dir_not_present}
use sparcs.Ftp.FileList.{insert}
use sparcs.Ftp.Discovery.{Discovery, is_current}

-- A row of `upmu_data_directory`.
pub record DirRow : Type 0 where
  pub year : ℕ
  pub month : ℕ
  pub day : ℕ
  pub hour : ℕ
  pub id : ℕ

-- What the function returns.
pub data Found : Type 0 where
  data_dir_ok no_data_dir data_dir_error : Found

pub data DirEffect : Type 0 where
  dir_added dir_abandoned : DataDir → DirEffect

-- The outcome: the directory, `dataDirValid`, what is returned, and what the database was told.
pub record Search : Type 0 where
  pub data_dir : DataDir
  pub data_dir_valid : Bool
  pub returned : Found
  pub effects : List DirEffect

-- The answers: the directories of the uPMU, the id of a new row, and whether a row can be abandoned.
-- `none` and `false` are exceptions of the database.
pub record Site : Type 0 where
  pub clock : Clock
  pub now : ℕ
  pub presence : List ℕ → Presence
  pub new_id : Option ℕ
  pub abandon_ok : Bool

-- A directory from a row; `none` is a month or a day out of range.
unfoldable pub dir_of_row : DirRow → DataDirState → Option DataDir
dir_of_row r s =
    if ltb r.month 1 || ltb 12 r.month || (r.day == 0)
    then none
    else (let dd : DataDir = record {
      year = r.year;
      month = r.month;
      day = r.day;
      hour = r.hour;
      dir_name = [];
      epoch_day = 0;
      db_id = r.id;
      state = s;
    } in
        some (record dd { dir_name = create_dir_name_yr_mon_day_hr dd }))

-- DEFAULT_STARTING_YEAR and those below it.
unfoldable pub default_dir : DataDir
default_dir =
    let dd : DataDir = record {
      year = 2018;
      month = 7;
      day = 5;
      hour = 22;
      dir_name = [];
      epoch_day = 0;
      db_id = 0;
      state = proposed;
    } in
    record dd { dir_name = create_dir_name_yr_mon_day_hr dd }

-- The current row, else the latest processed one, else the default; and the day of the directory.
unfoldable pub first_dir : Option DirRow → Option DirRow → Option DataDir
first_dir (some r) latest = dir_of_row r current
first_dir none (some r) = dir_of_row r processed
first_dir none none = some default_dir

unfoldable pub with_epoch_day : DataDir → DataDir
with_epoch_day dd = record dd { epoch_day = create_time_from_data_dir dd / 86400 }

abbrev pub is_processed_state : DataDirState → Bool
is_processed_state processed = true
is_processed_state _ = false

abbrev pub is_proposed : DataDirState → Bool
is_proposed proposed = true
is_proposed _ = false

abbrev pub stop : DataDir → Bool → Found → List DirEffect → Search
stop dd valid returned effects = record {
  data_dir = dd;
  data_dir_valid = valid;
  returned = returned;
  effects = effects;
}

-- A directory that is there: a proposed one gets its row.
unfoldable pub take_directory : Site → DataDir → List DirEffect → Search
take_directory u dd effects =
    if is_proposed dd.state
    then (elim u.new_id [
      | none ↦ stop dd false no_data_dir effects
      | some id ↦
          stop (record dd { db_id = id; state = current }) true data_dir_ok
            (effects ++ dir_added dd ∷ [])
    ])
    else stop dd true data_dir_ok effects

-- Behind `incDataDir` of a directory that is not there.
abbrev pub go_on :
    Bool → (DataDir → List DirEffect → Option Search) → DataDir → List DirEffect → Option Search
go_on true next dd effects = some (stop dd false data_dir_ok effects)
go_on false next dd effects = next dd effects

-- A directory that is not there. A current one is abandoned, unless the database throws.
abbrev pub pass_by :
    Bool
    → (DataDir → List DirEffect → Option Search)
    → Site
    → DataDir
    → List DirEffect
    → Option Search
pass_by true next u dd effects = some (stop dd false no_data_dir effects)
pass_by false next u dd effects =
    let (dd', at_present) = inc_data_dir u.clock u.now dd in
    go_on at_present next dd'
      (if is_current dd.state then effects ++ dir_abandoned dd ∷ [] else effects)

-- `verifyDataDirPresent` and what follows; `next` is the next round.
abbrev pub visit :
    Presence
    → (DataDir → List DirEffect → Option Search)
    → Site
    → DataDir
    → List DirEffect
    → Option Search
visit ftp_not_resp next u dd effects = some (stop dd false data_dir_ok effects)
visit dir_present next u dd effects = some (take_directory u dd effects)
visit dir_not_present next u dd effects =
    pass_by (is_current dd.state && not u.abandon_ok) next u dd effects

-- Behind `incDataDir` of the latest processed directory.
abbrev pub enter :
    Bool
    → (DataDir → List DirEffect → Option Search)
    → Site
    → DataDir
    → List DirEffect
    → Option Search
enter true next u dd effects = some (stop dd false no_data_dir effects)
enter false next u dd effects = visit (u.presence dd.dir_name) next u dd effects

-- A round. The latest processed directory is left at once.
abbrev pub round :
    Bool
    → (DataDir → List DirEffect → Option Search)
    → Site
    → DataDir
    → List DirEffect
    → Option Search
round true next u dd effects =
    let (dd', at_present) = inc_data_dir u.clock u.now dd in enter at_present next u dd' effects
round false next u dd effects = visit (u.presence dd.dir_name) next u dd effects

-- The loop `while (!termLoop)`; `none` without fuel.
unfoldable pub search : ℕ → Site → DataDir → List DirEffect → Option Search
search zero u dd effects = none
search (suc fuel) u dd effects = round (is_processed_state dd.state) (search fuel u) u dd effects

unfoldable pub get_current_directory : ℕ → Site → Option DirRow → Option DirRow → Option Search
get_current_directory fuel u row latest = elim (first_dir row latest) [
  | none ↦ some (stop default_dir false data_dir_error [])
  | some dd ↦ search fuel u (with_epoch_day dd) []
]

-- `getCurrentDataFileSet`: the names and the states of the directory's records; `none` is an
-- exception, DATA_DIR_ERROR.
pub data RecordState : Type 0 where
  record_processing record_released record_abandoned : RecordState

abbrev pub dealt_with : List (List ℕ × RecordState) → List (List ℕ) → List (List ℕ)
dealt_with [] seen = seen
dealt_with ((name, record_processing) ∷ rows) seen = dealt_with rows seen
dealt_with ((name, record_released) ∷ rows) seen = dealt_with rows (insert name seen)
dealt_with ((name, record_abandoned) ∷ rows) seen = dealt_with rows (insert name seen)

unfoldable pub get_current_data_file_set :
    Option (List (List ℕ × RecordState)) → Discovery → Discovery × Bool
get_current_data_file_set none d = (d, false)
get_current_data_file_set (some []) d = (record d { data_dir_access_in_progress = false }, true)
get_current_data_file_set (some (row ∷ rows)) d = (
  record d {
    data_files_in_dir = [];
    data_files_processed = dealt_with (row ∷ rows) [];
    data_dir_access_in_progress = true;
  },
  true,
)
