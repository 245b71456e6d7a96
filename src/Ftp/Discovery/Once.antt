-- ===== src/Ftp/Discovery/Once.antt =====
-- Whole passes of the discovery service: its files wait unprocessed, each is handed over once, and
-- none is while the services hold too many buffers.
use sparcs.Prelude.{
  ℕ, ◌≡◌, refl, ap, sym, ◌∙◌, ◌<◌, Bool, true, false, not, ◌&&◌, ◌||◌, Option, none, some, List, [],
  ◌∷◌, ◌++◌, arith, if◌then◌else◌, Bool-cases, ◌⊎◌, inl, inr,
}
use mathlib.Core.List.{append-nil}
use sparcs.Ftp.DataDir.{Clock}
use sparcs.Ftp.FileList.{contains, get_data_file_list, tokens_from, c_string, write_memory}
use sparcs.Ftp.FileList.Filter.{contains-insert, contains-get_data_file_list}
use sparcs.Ftp.Discovery.{
  Discovery, Answers, Pass, Effect, add_data_record, buffer_offered, release_data_record,
  release_dir_record, add_dir_record, end_of_body, db_access_error, exception, undefined,
  mark_processed, process_files, start_access, list_files, leave_directory,
  add_current_directory_record, next_directory, change_directory, then_change, then_leave,
  process_upmu_data,
}
use sparcs.Ftp.Discovery.Files.{
  offered, IsFresh, SameSets, FilesMove, process_files_held, process_files-FilesMove,
  FilesMove-IsFresh, SameSets-IsFresh,
}
use sparcs.Ftp.Discovery.Sets.{same_string_refl}
use sparcs.Ftp.Discovery.Dirs.{process_upmu_data_valid, process_upmu_data_invalid}

start_access-IsFresh : (d : Discovery) → IsFresh d → IsFresh (start_access d)
unfolding start_access
start_access-IsFresh d h s = let f = h s in ground arith

and_not : (l p : Bool) → ((false || (l && not p)) && p) ≡ false
and_not l p = ground arith

listed-IsFresh :
    (w : Answers) (d : Discovery) (listing : Option (List ℕ × List (List ℕ))) (s : List ℕ)
    → (contains s ((get_data_file_list (some d.data_files_processed) listing []).0)
        && contains s d.data_files_processed)
      ≡ false
listed-IsFresh w d none s = unfold get_data_file_list in refl
listed-IsFresh w d (some (unwritten, chunks)) s =
    let e = contains-get_data_file_list (some d.data_files_processed) unwritten chunks [] s in
    rw e (
      and_not (contains s (tokens_from [] (c_string (write_memory unwritten chunks))))
        (contains s d.data_files_processed))

list_files-IsFresh : (w : Answers) (d : Discovery) → IsFresh d → IsFresh (list_files w d)
unfolding list_files
list_files-IsFresh w d h s = let f = h s in let g = listed-IsFresh w d w.listing s in ground arith

leave_directory-SameSets : (w : Answers) (d : Discovery) → SameSets d (leave_directory w d)
unfolding leave_directory
leave_directory-SameSets w d = ground arith

change_directory-SameSets :
    (c : Clock) (w : Answers) (d : Discovery)
    → (SameSets d ((change_directory c w d).0)) × (offered ((change_directory c w d).1) ≡ [])
unfolding change_directory next_directory add_current_directory_record
change_directory-SameSets c w d = ground arith

offered-append : (es fs : List Effect) → offered (es ++ fs) ≡ offered es ++ offered fs
offered-append [] fs = refl
offered-append (add_data_record name id ∷ es) fs = offered-append es fs
offered-append (buffer_offered name bytes ∷ es) fs = ap (◌∷◌ name) (offered-append es fs)
offered-append (release_data_record id ∷ es) fs = offered-append es fs
offered-append (release_dir_record id ∷ es) fs = offered-append es fs
offered-append (add_dir_record dir ∷ es) fs = offered-append es fs

-- The second part of a pass neither touches the sets nor hands over a file.
abbrev SameFiles : Pass → Pass → Type 0
SameFiles p q = (SameSets (p.0) (q.0)) × (offered q.1 ≡ offered p.1)

then_leave-SameFiles : (w : Answers) (p : Pass) → SameFiles p (then_leave w p)
then_leave-SameFiles w (d, effects, end_of_body) = (leave_directory-SameSets w d, refl)
then_leave-SameFiles w (d, effects, db_access_error) = ((refl, refl), refl)
then_leave-SameFiles w (d, effects, exception) = ((refl, refl), refl)
then_leave-SameFiles w (d, effects, undefined) = ((refl, refl), refl)

change_behind :
    (c : Clock) (w : Answers) (d : Discovery) (effects : List Effect)
    → offered (effects ++ (change_directory c w d).1) ≡ offered effects
change_behind c w d effects =
    let e = (change_directory-SameSets c w d).1 in
    offered-append effects ((change_directory c w d).1) ∙ rw e (append-nil (offered effects))

then_change_end :
    (b : Bool) (c : Clock) (w : Answers) (d : Discovery) (effects : List Effect)
    → let (d', more, ended) = change_directory c w d in
      SameFiles
        (d, effects, end_of_body)
        (if b then (d, effects, end_of_body) else (d', effects ++ more, ended))
then_change_end true c w d effects = ((refl, refl), refl)
then_change_end false c w d effects =
    ((change_directory-SameSets c w d).0, change_behind c w d effects)

then_change-SameFiles : (c : Clock) (w : Answers) (p : Pass) → SameFiles p (then_change c w p)
unfolding then_change
then_change-SameFiles c w (d, effects, end_of_body) = then_change_end d.data_dir_valid c w d effects
then_change-SameFiles c w (d, effects, db_access_error) = ((refl, refl), refl)
then_change-SameFiles c w (d, effects, exception) = ((refl, refl), refl)
then_change-SameFiles c w (d, effects, undefined) = ((refl, refl), refl)

-- What a whole pass does to the files, from the list of a valid directory.
pass-SameFiles :
    (c : Clock) (w : Answers) (d : Discovery)
    → d.data_dir_valid ≡ true
    → SameFiles (process_files w (list_files w (start_access d))) (process_upmu_data c w d)
pass-SameFiles c w d v =
    let r = process_files w (list_files w (start_access d)) in
    let e = process_upmu_data_valid c w d v in
    let ((f, p), o) = then_leave-SameFiles w r in
    let ((g, q), u) = then_change-SameFiles c w (then_leave w r) in rw e ((g ∙ f, q ∙ p), u ∙ o)

-- If no file that waits is processed already, then the same holds after a pass of
-- `processUPMUdata`, whatever is answered and however the pass ends.
pub process_upmu_data-IsFresh :
    (c : Clock) (w : Answers) (d : Discovery) → IsFresh d → IsFresh ((process_upmu_data c w d).0)
process_upmu_data-IsFresh c w d h = elim (Bool-cases d.data_dir_valid) [
  | inl v ↦
      let d2 = list_files w (start_access d) in
      let fresh = list_files-IsFresh w (start_access d) (start_access-IsFresh d h) in
      let moved = FilesMove-IsFresh d2 (process_files w d2) (process_files-FilesMove w d2) fresh in
      SameSets-IsFresh ((process_files w d2).0) ((process_upmu_data c w d).0)
        ((pass-SameFiles c w d v).0) moved
  | inr v ↦
      let e = process_upmu_data_invalid c w d v in
      rw e (
        SameSets-IsFresh d ((then_change c w (d, [], end_of_body)).0)
          ((then_change-SameFiles c w (d, [], end_of_body)).0) h)
]

-- With more than five buffers outstanding, a pass of `processUPMUdata` hands over no file.
pub process_upmu_data_held :
    (c : Clock) (w : Answers) (d : Discovery)
    → 5 < w.shared_in_mem_data_buffer_cnt
    → offered ((process_upmu_data c w d).1) ≡ []
process_upmu_data_held c w d h = elim (Bool-cases d.data_dir_valid) [
  | inl v ↦
      let d2 = list_files w (start_access d) in
      let e = process_files_held w d2 (ground arith) in (pass-SameFiles c w d v).1 ∙ rw e
  | inr v ↦
      let e = process_upmu_data_invalid c w d v in
      rw e ((then_change-SameFiles c w (d, [], end_of_body)).1)
]

start_access_again : (d : Discovery) → d.data_dir_access_in_progress ≡ true → start_access d ≡ d
unfolding start_access
start_access_again d h = ground arith

list_files_processed :
    (w : Answers) (d : Discovery) → (list_files w d).data_files_processed ≡ d.data_files_processed
unfolding list_files
list_files_processed w d = ground arith

mark_processed_there :
    (name : List ℕ) (d : Discovery)
    → contains name (mark_processed name d).data_files_processed ≡ true
unfolding mark_processed
mark_processed_there name d =
    let r = same_string_refl name in contains-insert name name d.data_files_processed ∙ rw r

waiting_is_new : (a b : Bool) → (a && b) ≡ false → a ≡ true → b ≡ false
waiting_is_new a b h e = ground arith

-- What is handed over: nothing, or one file that was not processed before and is afterwards.
abbrev pub OffersOnce : Discovery → Pass → Type 0
OffersOnce d p =
    (offered p.1 ≡ [])
    ⊎ ((name : List ℕ) × ((offered p.1 ≡ name ∷ [])
          × ((contains name d.data_files_processed ≡ false)
              × (contains name p.0.data_files_processed ≡ true))))

of_move : (d : Discovery) (p q : Pass) → IsFresh d → SameFiles p q → FilesMove d p → OffersOnce d q
of_move d p q h (s, o) (inl (m, e)) = inl (o ∙ e)
of_move d p q h (s, o) (inr (name, (c, (m, inl e)))) = inl (o ∙ e)
of_move d p q h (s, o) (inr (name, (c, (m, inr e)))) = inr (
  name,
  (
    o ∙ e,
    (
      waiting_is_new (contains name d.data_files_in_dir) (contains name d.data_files_processed)
          (h name) c,
      ap (contains name) (s.1 ∙ m.1) ∙ mark_processed_there name d,
    ),
  ),
)

OffersOnce-of_same :
    (d e : Discovery) (p : Pass)
    → e.data_files_processed ≡ d.data_files_processed
    → OffersOnce e p
    → OffersOnce d p
OffersOnce-of_same d e p q (inl o) = inl o
OffersOnce-of_same d e p q (inr (name, (o, (f, t)))) =
    inr (name, (o, (ap (contains name) (sym q) ∙ f, t)))

-- A pass of `processUPMUdata` over a valid directory that is already accessed, in which no
-- waiting file is processed: whatever the uPMU and the database answer, it hands over no file,
-- or exactly one, which was not processed before and is marked as processed afterwards.
pub process_upmu_data-OffersOnce :
    (c : Clock) (w : Answers) (d : Discovery)
    → d.data_dir_valid ≡ true
    → d.data_dir_access_in_progress ≡ true
    → IsFresh d
    → OffersOnce d (process_upmu_data c w d)
process_upmu_data-OffersOnce c w d v a h =
    let d2 = list_files w (start_access d) in
    let fresh = list_files-IsFresh w (start_access d) (start_access-IsFresh d h) in
    let same =
      list_files_processed w (start_access d)
      ∙ ap (λ (x : Discovery). x.data_files_processed) (start_access_again d a) in
    OffersOnce-of_same d d2 (process_upmu_data c w d) same (
      of_move d2 (process_files w d2) (process_upmu_data c w d) fresh (pass-SameFiles c w d v)
        (process_files-FilesMove w d2))
