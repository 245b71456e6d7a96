-- ===== src/Ftp/Discovery.antt =====
-- The discovery service over FTP: `processUPMUdata`, `dataFileComplete` and
-- `addCurrentDirectoryRecord` of ftp/serviceDataDiscovery/serviceDataDiscovery.cpp. What the uPMU,
-- the database and the clock answer in a pass is an argument. What the service does to the database
-- and to the other services is a list of effects.
pub mod Sets
pub mod Start
pub mod Files
pub mod Once
pub mod Dirs
pub mod Lost
mod Tests
use sparcs.Prelude.{
  ℕ, ◌+◌, ◌-◌, ◌*◌, Bool, true, false, not, ◌&&◌, ◌||◌, Option, none, some, List, [], ◌∷◌, ◌++◌,
  length, ltb, leb, ◌==◌, if◌then◌else◌, u32, sub_u32,
}
use sparcs.Ftp.DataDir.{
  DataDir, DataDirState, current, proposed, abandoned, processed, unknown, Clock,
  is_data_dir_at_present, inc_data_dir,
}
use sparcs.Ftp.FileList.{insert, first_of, erase, get_data_file_list}
use sparcs.Ftp.FileTime.{create_time_from_data_dir, create_time_from_data_file_name}
use sparcs.Ftp.Transfer.{
  Outcome, file, data_access_error, no_return, Presence, dir_present, ftp_not_resp, dir_not_present,
}
use sparcs.Ftp.Swap.{post_process_upmu_data}

pub data ScanMode : Type 0 where
  catch_up normal : ScanMode

pub record Discovery : Type 0 where
  pub data_dir : DataDir
  pub data_dir_valid : Bool
  pub data_dir_access_in_progress : Bool
  pub most_recent_data_file_name_valid : Bool
  pub most_recent_data_file_name : List ℕ
  pub most_recent_data_file_length : ℕ
  pub data_files_in_dir : List (List ℕ)
  pub data_files_processed : List (List ℕ)
  pub scan_mode : ScanMode

pub data Effect : Type 0 where
  add_data_record : List ℕ → ℕ → Effect
  buffer_offered : List ℕ → List ℕ → Effect
  release_data_record : ℕ → Effect
  release_dir_record : ℕ → Effect
  add_dir_record : DataDir → Effect

-- How a pass ends: at its last line, where no value is returned, with DB_ACCESS_ERROR, with an
-- exception that nothing in the pass catches, or with an access that has no meaning.
pub data Ended : Type 0 where
  end_of_body db_access_error exception undefined : Ended

-- The answers of a pass. `none` of the database is an exception.
pub record Answers : Type 0 where
  pub time_of_file : ℕ
  pub time_of_dir : ℕ
  pub time_of_present : ℕ
  pub listing : Option (List ℕ × List (List ℕ))
  pub shared_in_mem_data_buffer_cnt : ℕ
  pub data_file_length : Option ℕ
  pub data_record_id : Option ℕ
  pub data_file : Outcome
  pub data_record_released : Bool
  pub dir_record_released : Bool
  pub presence : Presence
  pub dir_record_id : Option ℕ

abbrev pub Pass : Type 0
Pass = Discovery × List Effect × Ended

abbrev pub is_current : DataDirState → Bool
is_current current = true
is_current _ = false

-- The state with its scan mode, and the answer; `none` where the name makes it throw.
unfoldable pub data_file_complete : Answers → List ℕ → Discovery → Option (Discovery × Bool)
data_file_complete w name d = elim (create_time_from_data_file_name name) [
  | none ↦ none
  | some dft ↦
      if ltb 200 (sub_u32 (u32 w.time_of_file) dft)
      then some (record d { scan_mode = catch_up }, true)
      else some (
        record d { scan_mode = normal },
        elim w.data_file_length [
          | none ↦ false
          | some size ↦ not (ltb (u32 size) d.most_recent_data_file_length)
        ],
      )
]

-- A name is marked as processed before its file is fetched.
unfoldable pub mark_processed : List ℕ → Discovery → Discovery
mark_processed name d = record d {
  most_recent_data_file_name_valid = true;
  most_recent_data_file_name = name;
  data_files_processed = insert name d.data_files_processed;
  data_files_in_dir = erase name d.data_files_in_dir;
}

-- The `try` block: the record of the file, the file itself, and the release of the record.
unfoldable pub fetch_file : Answers → List ℕ → Discovery → Pass
fetch_file w name d = elim w.data_record_id [
  | none ↦ (d, [], db_access_error)
  | some id ↦ elim w.data_file [
    | file buf size ↦ elim (post_process_upmu_data buf) [
      | none ↦ (d, add_data_record name d.data_dir.db_id ∷ [], undefined)
      | some bytes ↦
          let d' = record d { most_recent_data_file_length = u32 size } in
          let effects = add_data_record name d.data_dir.db_id ∷ buffer_offered name bytes ∷ [] in
          if w.data_record_released
          then (d', effects ++ release_data_record id ∷ [], end_of_body)
          else (d', effects, db_access_error)
    ]
    | data_access_error ↦ (d, add_data_record name d.data_dir.db_id ∷ [], undefined)
    | no_return ↦ (d, add_data_record name d.data_dir.db_id ∷ [], undefined)
  ]
]

-- The first file of the list, if it is complete.
unfoldable pub process_first : Answers → List ℕ → Discovery → Pass
process_first w name d = elim (data_file_complete w name d) [
  | none ↦ (d, [], exception)
  | some (d', true) ↦ fetch_file w name (mark_processed name d')
  | some (d', false) ↦ (d', [], end_of_body)
]

-- `if(!dataFilesInDir.empty())`, and the flow control.
unfoldable pub process_files : Answers → Discovery → Pass
process_files w d = elim d.data_files_in_dir [
  | [] ↦ (d, [], end_of_body)
  | s ∷ ss ↦
      if leb w.shared_in_mem_data_buffer_cnt 5
      then process_first w (first_of s ss) d
      else (d, [], end_of_body)
]

-- A valid directory: its first access, and its files, if there are none in the list.
unfoldable pub start_access : Discovery → Discovery
start_access d = if d.data_dir_access_in_progress then d else record d {
  data_dir_access_in_progress = true;
  data_files_in_dir = [];
  data_files_processed = [];
}

unfoldable pub list_files : Answers → Discovery → Discovery
list_files w d = elim d.data_files_in_dir [
  | [] ↦ record d {
    data_files_in_dir = (get_data_file_list (some d.data_files_processed) w.listing []).0;
  }
  | s ∷ ss ↦ d
]

-- A directory without files that is over an hour old.
unfoldable pub leave_directory : Answers → Discovery → Discovery
leave_directory w d = elim d.data_files_in_dir [
  | [] ↦
      if ltb 3600 (sub_u32 (u32 w.time_of_dir) (create_time_from_data_dir d.data_dir))
      then record d {
        data_dir_valid = false;
        data_dir_access_in_progress = false;
        most_recent_data_file_name_valid = false;
      }
      else d
  | s ∷ ss ↦ d
]

-- `addCurrentDirectoryRecord`; where it throws, the id stays.
unfoldable pub add_current_directory_record : Answers → Discovery → Discovery × List Effect
add_current_directory_record w d = elim w.dir_record_id [
  | none ↦ (d, [])
  | some id ↦
      (record d { data_dir = record d.data_dir { db_id = id } }, add_dir_record d.data_dir ∷ [])
]

-- The next directory, and whether it is there.
unfoldable pub next_directory : Clock → Answers → Discovery → Discovery × List Effect
next_directory c w d =
    let dir =
      if is_data_dir_at_present c w.time_of_present d.data_dir
      then d.data_dir
      else ((inc_data_dir c w.time_of_present d.data_dir).0) in
    let d' = record d { data_dir = dir } in
    elim w.presence [
      | dir_present ↦
          let (d'', effects) = add_current_directory_record w d' in
          (
            record d'' {
              data_dir = record d''.data_dir { state = current };
              data_dir_valid = true;
            },
            effects,
          )
      | ftp_not_resp ↦ (d', [])
      | dir_not_present ↦ (d', [])
    ]

-- `if(!dataDirValid)`: a current directory is released first.
unfoldable pub change_directory : Clock → Answers → Discovery → Pass
change_directory c w d =
    if is_current d.data_dir.state
    then (if w.dir_record_released
        then (let (d', effects) = next_directory c w (record d {
          data_dir = record d.data_dir { state = unknown };
          data_dir_access_in_progress = false;
        }) in
            (d', release_dir_record d.data_dir.db_id ∷ effects, end_of_body))
        else (d, [], db_access_error))
    else (let (d', effects) = next_directory c w d in (d', effects, end_of_body))

-- The second `if`, behind a first part that came to its end.
unfoldable pub then_change : Clock → Answers → Pass → Pass
then_change c w (d, effects, end_of_body) =
    if d.data_dir_valid
    then (d, effects, end_of_body)
    else (let (d', more, ended) = change_directory c w d in (d', effects ++ more, ended))
then_change c w (d, effects, db_access_error) = (d, effects, db_access_error)
then_change c w (d, effects, exception) = (d, effects, exception)
then_change c w (d, effects, undefined) = (d, effects, undefined)

-- The first `if(dataDirValid)`.
abbrev pub then_leave : Answers → Pass → Pass
then_leave w (d, effects, end_of_body) = (leave_directory w d, effects, end_of_body)
then_leave w (d, effects, db_access_error) = (d, effects, db_access_error)
then_leave w (d, effects, exception) = (d, effects, exception)
then_leave w (d, effects, undefined) = (d, effects, undefined)

unfoldable pub process_upmu_data : Clock → Answers → Discovery → Pass
process_upmu_data c w d = then_change c w (
    if d.data_dir_valid
    then then_leave w (process_files w (list_files w (start_access d)))
    else (d, [], end_of_body))
