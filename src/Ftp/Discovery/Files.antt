-- ===== src/Ftp/Discovery/Files.antt =====
-- The files of the discovery service through a pass: what is waiting, what is processed, and what is
-- handed over.
use sparcs.Prelude.{
  ℕ, ◌≡◌, refl, ap, ◌∙◌, Bool, true, false, not, ◌&&◌, ◌||◌, List, [], ◌∷◌, leb, arith, Bool-cases,
  ◌⊎◌, inl, inr,
}
use sparcs.Ftp.FileList.{contains, same_string, first_of}
use sparcs.Ftp.FileList.Filter.{contains-insert}
use sparcs.Ftp.Discovery.{
  Discovery, Answers, Pass, Effect, add_data_record, buffer_offered, release_data_record,
  release_dir_record, add_dir_record, end_of_body, data_file_complete, mark_processed, fetch_file,
  process_first, process_files,
}
use sparcs.Ftp.Discovery.Sets.{contains-first_of, contains-erase}

-- The names of the files that are handed to the services.
abbrev pub offered : List Effect → List (List ℕ)
offered [] = []
offered (add_data_record name id ∷ es) = offered es
offered (buffer_offered name bytes ∷ es) = name ∷ offered es
offered (release_data_record id ∷ es) = offered es
offered (release_dir_record id ∷ es) = offered es
offered (add_dir_record dir ∷ es) = offered es

-- No file that waits is processed already.
abbrev pub IsFresh : Discovery → Type 0
IsFresh d =
    (s : List ℕ) → (contains s d.data_files_in_dir && contains s d.data_files_processed) ≡ false

abbrev pub SameSets : Discovery → Discovery → Type 0
SameSets d d' =
    (d'.data_files_in_dir ≡ d.data_files_in_dir)
    × (d'.data_files_processed ≡ d.data_files_processed)

-- What a first file comes to: it waits on, or it is marked and at most it is handed over.
abbrev Moves : List ℕ → Discovery → Pass → Type 0
Moves name d p =
    (SameSets d p.0 × (offered p.1 ≡ []))
    ⊎ (SameSets (mark_processed name d) p.0 × ((offered p.1 ≡ []) ⊎ (offered p.1 ≡ name ∷ [])))

process_first-Moves :
    (w : Answers) (name : List ℕ) (d : Discovery) → Moves name d (process_first w name d)
unfolding process_first data_file_complete mark_processed fetch_file
process_first-Moves w name d = ground arith

process_files_none :
    (w : Answers) (d : Discovery)
    → d.data_files_in_dir ≡ []
    → process_files w d ≡ (d, [], end_of_body)
unfolding process_files
process_files_none w d e = ground arith

pub process_files_held :
    (w : Answers) (d : Discovery)
    → leb w.shared_in_mem_data_buffer_cnt 5 ≡ false
    → process_files w d ≡ (d, [], end_of_body)
unfolding process_files
process_files_held w d e = ground arith

process_files_first :
    (w : Answers) (d : Discovery) (s : List ℕ) (ss : List (List ℕ))
    → d.data_files_in_dir ≡ s ∷ ss
    → leb w.shared_in_mem_data_buffer_cnt 5 ≡ true
    → process_files w d ≡ process_first w (first_of s ss) d
unfolding process_files
process_files_first w d s ss e f = ground arith

-- What the list of files comes to.
abbrev pub FilesMove : Discovery → Pass → Type 0
FilesMove d p =
    (SameSets d p.0 × (offered p.1 ≡ []))
    ⊎ ((name : List ℕ) × ((contains name d.data_files_in_dir ≡ true)
          × ((SameSets (mark_processed name d) p.0)
              × ((offered p.1 ≡ []) ⊎ (offered p.1 ≡ name ∷ [])))))

of_first :
    (d : Discovery) (name : List ℕ) (p : Pass)
    → contains name d.data_files_in_dir ≡ true
    → Moves name d p
    → FilesMove d p
of_first d name p c (inl m) = inl m
of_first d name p c (inr (m, o)) = inr (name, (c, (m, o)))

of_files :
    (w : Answers) (d : Discovery) (fs : List (List ℕ))
    → d.data_files_in_dir ≡ fs
    → leb w.shared_in_mem_data_buffer_cnt 5 ≡ true
    → FilesMove d (process_files w d)
of_files w d [] e f = let p = process_files_none w d e in rw p (inl ((refl, refl), refl))
of_files w d (s ∷ ss) e f =
    let p = process_files_first w d s ss e f in
    let c = ap (contains (first_of s ss)) e ∙ contains-first_of s ss in
    rw p (
      of_first d (first_of s ss) (process_first w (first_of s ss) d) c
        (process_first-Moves w (first_of s ss) d))

pub process_files-FilesMove : (w : Answers) (d : Discovery) → FilesMove d (process_files w d)
process_files-FilesMove w d = elim (Bool-cases (leb w.shared_in_mem_data_buffer_cnt 5)) [
  | inl f ↦ of_files w d d.data_files_in_dir refl f
  | inr f ↦ let p = process_files_held w d f in rw p (inl ((refl, refl), refl))
]

fresh_bools : (f p same : Bool) → (f && p) ≡ false → ((f && not same) && (same || p)) ≡ false
fresh_bools f p same h = ground arith

mark_processed-IsFresh :
    (name : List ℕ) (d : Discovery) → IsFresh d → IsFresh (mark_processed name d)
unfolding mark_processed
mark_processed-IsFresh name d h s =
    let e = contains-erase s name d.data_files_in_dir in
    let i = contains-insert s name d.data_files_processed in
    rw (e, i)
      (fresh_bools (contains s d.data_files_in_dir) (contains s d.data_files_processed)
        (same_string s name) (h s))

pub SameSets-IsFresh : (d d' : Discovery) → SameSets d d' → IsFresh d → IsFresh d'
SameSets-IsFresh d d' (f, p) h s = rw (f, p) (h s)

pub FilesMove-IsFresh : (d : Discovery) (p : Pass) → FilesMove d p → IsFresh d → IsFresh (p.0)
FilesMove-IsFresh d p (inl (m, o)) h = SameSets-IsFresh d (p.0) m h
FilesMove-IsFresh d p (inr (name, (c, (m, o)))) h =
    SameSets-IsFresh (mark_processed name d) (p.0) m (mark_processed-IsFresh name d h)
