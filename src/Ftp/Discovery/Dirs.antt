-- ===== src/Ftp/Discovery/Dirs.antt =====
-- The directory of the discovery service through a pass.
use sparcs.Prelude.{
  ℕ, ◌≡◌, refl, ap, sym, ◌∙◌, Bool, true, false, List, [], ◌++◌, arith, if◌then◌else◌, Bool-cases,
  ◌⊎◌, inl, inr, u32, sub_u32, ◌≤◌,
}
use mathlib.Core.Bool.{false≢true}
use sparcs.Ftp.DataDir.{DataDir, current, Clock}
use sparcs.Ftp.FileTime.{create_time_from_data_dir}
use sparcs.Ftp.Discovery.{
  Discovery, Answers, Pass, Effect, end_of_body, db_access_error, exception, undefined,
  data_file_complete, mark_processed, fetch_file, process_first, process_files, start_access,
  list_files, leave_directory, add_current_directory_record, next_directory, change_directory,
  then_change, then_leave, process_upmu_data,
}

abbrev Keeps : Discovery → Discovery → Type 0
Keeps d d' = (d'.data_dir ≡ d.data_dir) × (d'.data_dir_valid ≡ d.data_dir_valid)

start_access-Keeps : (d : Discovery) → Keeps d (start_access d)
unfolding start_access
start_access-Keeps d = ground arith

list_files-Keeps : (w : Answers) (d : Discovery) → Keeps d (list_files w d)
unfolding list_files
list_files-Keeps w d = ground arith

process_first-Keeps :
    (w : Answers) (name : List ℕ) (d : Discovery) → Keeps d ((process_first w name d).0)
unfolding process_first data_file_complete mark_processed fetch_file
process_first-Keeps w name d = ground arith

process_files-Keeps : (w : Answers) (d : Discovery) → Keeps d ((process_files w d).0)
unfolding process_files process_first data_file_complete mark_processed fetch_file
process_files-Keeps w d = ground arith

-- A directory's age, in the words of the code.
abbrev pub age_of : Answers → DataDir → ℕ
age_of w dir = sub_u32 (u32 w.time_of_dir) (create_time_from_data_dir dir)

leave_directory-Keeps :
    (w : Answers) (d : Discovery) → age_of w d.data_dir ≤ 3600 → Keeps d (leave_directory w d)
unfolding leave_directory
leave_directory-Keeps w d h = ground arith

then_leave-Keeps :
    (w : Answers) (p : Pass) → age_of w p.0.data_dir ≤ 3600 → Keeps (p.0) ((then_leave w p).0)
then_leave-Keeps w (d, effects, end_of_body) h = leave_directory-Keeps w d h
then_leave-Keeps w (d, effects, db_access_error) h = (refl, refl)
then_leave-Keeps w (d, effects, exception) h = (refl, refl)
then_leave-Keeps w (d, effects, undefined) h = (refl, refl)

then_change_valid :
    (c : Clock) (w : Answers) (p : Pass) → p.0.data_dir_valid ≡ true → then_change c w p ≡ p
unfolding then_change
then_change_valid c w (d, effects, end_of_body) h = rw h
then_change_valid c w (d, effects, db_access_error) h = refl
then_change_valid c w (d, effects, exception) h = refl
then_change_valid c w (d, effects, undefined) h = refl

Keeps-trans : (a b e : Discovery) → Keeps a b → Keeps b e → Keeps a e
Keeps-trans a b e (p, q) (r, s) = (r ∙ p, s ∙ q)

-- Until the directory may be left.
files-Keeps :
    (w : Answers) (d : Discovery) → Keeps d ((process_files w (list_files w (start_access d))).0)
files-Keeps w d =
    let d1 = start_access d in
    let d2 = list_files w d1 in
    Keeps-trans d d1 ((process_files w d2).0) (start_access-Keeps d) (
      Keeps-trans d1 d2 ((process_files w d2).0) (list_files-Keeps w d1) (process_files-Keeps w d2))

pub choose_true {ℓ} : {A : Type ℓ} (b : Bool) (p q : A) → b ≡ true → (if b then p else q) ≡ p
choose_true true p q h = refl
choose_true false p q h = absurd (false≢true h)

pub choose_false {ℓ} : {A : Type ℓ} (b : Bool) (p q : A) → b ≡ false → (if b then p else q) ≡ q
choose_false true p q h = absurd (false≢true (sym h))
choose_false false p q h = refl

-- The two parts of a pass.
pub process_upmu_data_valid :
    (c : Clock) (w : Answers) (d : Discovery)
    → d.data_dir_valid ≡ true
    → process_upmu_data c w d
      ≡ then_change c w (then_leave w (process_files w (list_files w (start_access d))))
unfolding process_upmu_data
process_upmu_data_valid c w d v = ap (then_change c w) (
    choose_true d.data_dir_valid (then_leave w (process_files w (list_files w (start_access d))))
      (d, [], end_of_body) v)

pub process_upmu_data_invalid :
    (c : Clock) (w : Answers) (d : Discovery)
    → d.data_dir_valid ≡ false
    → process_upmu_data c w d ≡ then_change c w (d, [], end_of_body)
unfolding process_upmu_data
process_upmu_data_invalid c w d v = ap (then_change c w) (
    choose_false d.data_dir_valid (then_leave w (process_files w (list_files w (start_access d))))
      (d, [], end_of_body) v)

-- A pass over a valid directory whose age, as the code computes it, is at most an hour leaves
-- the directory as it is, and valid, whatever is answered.
pub process_upmu_data-stays :
    (c : Clock) (w : Answers) (d : Discovery)
    → d.data_dir_valid ≡ true
    → age_of w d.data_dir ≤ 3600
    → ((process_upmu_data c w d).0.data_dir ≡ d.data_dir)
      × ((process_upmu_data c w d).0.data_dir_valid ≡ true)
process_upmu_data-stays c w d v h =
    let r = process_files w (list_files w (start_access d)) in
    let k = files-Keeps w d in
    let young : age_of w r.0.data_dir ≤ 3600 = rw (k.0) h in
    let l = Keeps-trans d (r.0) ((then_leave w r).0) k (then_leave-Keeps w r young) in
    let same = process_upmu_data_valid c w d v ∙ then_change_valid c w (then_leave w r) (l.1 ∙ v) in
    rw same (l.0, l.1 ∙ v)

-- A valid directory is the current one.
abbrev pub IsConsistent : Discovery → Type 0
IsConsistent d = (d.data_dir_valid ≡ false) ⊎ (d.data_dir.state ≡ current)

next_directory-IsConsistent :
    (c : Clock) (w : Answers) (d : Discovery)
    → d.data_dir_valid ≡ false
    → IsConsistent ((next_directory c w d).0)
unfolding next_directory add_current_directory_record
next_directory-IsConsistent c w d v = ground arith

change_directory-IsConsistent :
    (c : Clock) (w : Answers) (d : Discovery)
    → d.data_dir_valid ≡ false
    → IsConsistent ((change_directory c w d).0)
unfolding change_directory next_directory add_current_directory_record
change_directory-IsConsistent c w d v = ground arith

pub then_change_invalid :
    (c : Clock) (w : Answers) (d : Discovery) (effects : List Effect)
    → d.data_dir_valid ≡ false
    → (then_change c w (d, effects, end_of_body)).0 ≡ (change_directory c w d).0
unfolding then_change
then_change_invalid c w d effects v =
    let (d', more, ended) = change_directory c w d in
    ap {A = Pass} (λ p. p.0)
      (choose_false d.data_dir_valid (d, effects, end_of_body) (d', effects ++ more, ended) v)

then_change_end :
    (c : Clock) (w : Answers) (d : Discovery) (effects : List Effect)
    → IsConsistent d
    → IsConsistent ((then_change c w (d, effects, end_of_body)).0)
then_change_end c w d effects h = elim (Bool-cases d.data_dir_valid) [
  | inl v ↦ let e = then_change_valid c w (d, effects, end_of_body) v in rw e h
  | inr v ↦
      let e = then_change_invalid c w d effects v in rw e (change_directory-IsConsistent c w d v)
]

then_change-IsConsistent :
    (c : Clock) (w : Answers) (p : Pass) → IsConsistent (p.0) → IsConsistent ((then_change c w p).0)
unfolding then_change
then_change-IsConsistent c w (d, effects, end_of_body) h = then_change_end c w d effects h
then_change-IsConsistent c w (d, effects, db_access_error) h = h
then_change-IsConsistent c w (d, effects, exception) h = h
then_change-IsConsistent c w (d, effects, undefined) h = h

leave_directory-IsConsistent :
    (w : Answers) (d : Discovery) → IsConsistent d → IsConsistent (leave_directory w d)
unfolding leave_directory
leave_directory-IsConsistent w d h = ground arith

then_leave-IsConsistent :
    (w : Answers) (p : Pass) → IsConsistent (p.0) → IsConsistent ((then_leave w p).0)
then_leave-IsConsistent w (d, effects, end_of_body) h = leave_directory-IsConsistent w d h
then_leave-IsConsistent w (d, effects, db_access_error) h = h
then_leave-IsConsistent w (d, effects, exception) h = h
then_leave-IsConsistent w (d, effects, undefined) h = h

Keeps-IsConsistent : (d d' : Discovery) → Keeps d d' → IsConsistent d → IsConsistent d'
Keeps-IsConsistent d d' (p, q) h = let s = ap (λ dir. dir.state) p in ground arith

-- If the directory is not valid or its state is current, then the same holds after a pass of
-- `processUPMUdata`, whatever is answered and however the pass ends.
pub process_upmu_data-IsConsistent :
    (c : Clock) (w : Answers) (d : Discovery)
    → IsConsistent d
    → IsConsistent ((process_upmu_data c w d).0)
process_upmu_data-IsConsistent c w d h = elim (Bool-cases d.data_dir_valid) [
  | inl v ↦
      let r = process_files w (list_files w (start_access d)) in
      let e = process_upmu_data_valid c w d v in
      let k = Keeps-IsConsistent d (r.0) (files-Keeps w d) h in
      rw e (then_change-IsConsistent c w (then_leave w r) (then_leave-IsConsistent w r k))
  | inr v ↦
      let e = process_upmu_data_invalid c w d v in
      rw e (then_change-IsConsistent c w (d, [], end_of_body) h)
]
