-- ===== src/Ftp/Discovery/Lost.antt =====
-- An hour for which the uPMU does not answer is passed over.
use sparcs.Prelude.{ℕ, ◌≡◌, refl, ap, ◌∙◌, true, false, [], arith}
use sparcs.Ftp.DataDir.{DataDir, Clock, is_data_dir_at_present, inc_data_dir}
use sparcs.Ftp.Transfer.{ftp_not_resp, dir_present}
use sparcs.Ftp.Discovery.{
  Discovery, Answers, is_current, add_current_directory_record, next_directory, change_directory,
  process_upmu_data,
}
use sparcs.Ftp.Discovery.Dirs.{process_upmu_data_invalid, then_change_invalid}

-- A service without a directory, whose last one is not of the present hour.
abbrev pub IsSearching : Clock → Answers → Discovery → Type 0
IsSearching c w d =
    (d.data_dir_valid ≡ false)
    × (is_current d.data_dir.state ≡ false)
    × (is_data_dir_at_present c w.time_of_present d.data_dir ≡ false)

not_current :
    (c : Clock) (w : Answers) (d : Discovery)
    → is_current d.data_dir.state ≡ false
    → (change_directory c w d).0 ≡ (next_directory c w d).0
unfolding change_directory
not_current c w d h = ground arith

unanswered :
    (c : Clock) (w : Answers) (d : Discovery)
    → is_data_dir_at_present c w.time_of_present d.data_dir ≡ false
    → d.data_dir_valid ≡ false
    → w.presence ≡ ftp_not_resp
    → ((next_directory c w d).0.data_dir ≡ (inc_data_dir c w.time_of_present d.data_dir).0)
      × ((next_directory c w d).0.data_dir_valid ≡ false)
unfolding next_directory
unanswered c w d h v p = ground arith

answered :
    (c : Clock) (w : Answers) (d : Discovery)
    → is_data_dir_at_present c w.time_of_present d.data_dir ≡ false
    → w.presence ≡ dir_present
    → ((next_directory c w d).0.data_dir.dir_name
        ≡ (inc_data_dir c w.time_of_present d.data_dir).0.dir_name)
      × ((next_directory c w d).0.data_dir_valid ≡ true)
unfolding next_directory add_current_directory_record
answered c w d h p = ground arith

searching_pass :
    (c : Clock) (w : Answers) (d : Discovery)
    → IsSearching c w d
    → (process_upmu_data c w d).0 ≡ (next_directory c w d).0
searching_pass c w d (v, s, p) =
    let e = process_upmu_data_invalid c w d v in
    rw e (then_change_invalid c w d [] v ∙ not_current c w d s)

inc_not_current :
    (c : Clock) (now : ℕ) (dd : DataDir) → is_current ((inc_data_dir c now dd).0.state) ≡ false
unfolding inc_data_dir
inc_not_current c now dd = refl

-- A service without a directory, whose last directory is neither current nor of the present
-- hour: if the uPMU does not answer in a pass, and in the next one says that the directory is
-- there, and the hour asked for first is not the present one, then the service takes the
-- directory of the hour behind the one that was not answered for.
pub unanswered_hour_lost :
    (c : Clock) (w v : Answers) (d : Discovery)
    → IsSearching c w d
    → w.presence ≡ ftp_not_resp
    → v.presence ≡ dir_present
    → is_data_dir_at_present c v.time_of_present ((inc_data_dir c w.time_of_present d.data_dir).0)
      ≡ false
    → let unanswered_dir = (inc_data_dir c w.time_of_present d.data_dir).0 in
      let after = (process_upmu_data c v ((process_upmu_data c w d).0)).0 in
      (after.data_dir_valid ≡ true)
      × (after.data_dir.dir_name ≡ (inc_data_dir c v.time_of_present unanswered_dir).0.dir_name)
unanswered_hour_lost c w v d (val, s, p) r t q =
    let d1 = (next_directory c w d).0 in
    let (dir, inv) = unanswered c w d p val r in
    let first = searching_pass c w d (val, s, p) in
    let s1 : is_current d1.data_dir.state ≡ false =
      ap (λ (x : DataDir). is_current x.state) dir
      ∙ inc_not_current c w.time_of_present d.data_dir in
    let p1 = ap (is_data_dir_at_present c v.time_of_present) dir ∙ q in
    let second = searching_pass c v d1 (inv, s1, p1) in
    let (name, valid) = answered c v d1 p1 t in
    let named = ap (λ (x : DataDir). (inc_data_dir c v.time_of_present x).0.dir_name) dir in
    rw (first, second) (valid, name ∙ named)
