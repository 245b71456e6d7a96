-- ===== src/Ftp/FileList/Filter.antt =====
-- Which files are listed: those there before, and the new names that are not processed.
use sparcs.Prelude.{
  ℕ, ◌≡◌, refl, ap, ◌∙◌, arith, Bool, true, false, not, ◌&&◌, ◌||◌, Bool-cases, inl, inr, Option,
  none, some, List, [], ◌∷◌, ◌++◌, ◌<◌, length,
}
use mathlib.Core.List.{flatten}
use sparcs.Ftp.FileList.{
  same_string, contains, insert, is_processed, add_names, get_data_file_list, tokens_from, c_string,
  write_memory,
}

pub same_string_eq : (s t : List ℕ) → same_string s t ≡ true → s ≡ t
same_string_eq [] [] e = refl
same_string_eq [] (y ∷ ys) e = ground arith
same_string_eq (x ∷ xs) [] e = ground arith
same_string_eq (x ∷ xs) (y ∷ ys) e =
    let head : x ≡ y = ground arith in
    let tail : same_string xs ys ≡ true = ground arith in λ i. head i ∷ same_string_eq xs ys tail i

pub contains-insert :
    (s t : List ℕ) (ts : List (List ℕ))
    → contains s (insert t ts) ≡ (same_string s t || contains s ts)
unfolding insert
contains-insert s t ts = elim (Bool-cases (contains t ts)) [
  | inr f ↦ rw f refl
  | inl there ↦ rw there (elim (Bool-cases (same_string s t)) [
    | inr f ↦ rw f refl
    | inl same ↦ rw same (rw (same_string_eq s t same) there)
  ])
]

or_false : (a : Bool) → a ≡ (a || false)
or_false true = refl
or_false false = refl

-- A processed name `a` adds nothing, and a new one is added once.
skip_seen :
    (a b f p : Bool) → (a ≡ true → p ≡ true) → (f || (b && not p)) ≡ (f || ((a || b) && not p))
skip_seen true true f p h = refl
skip_seen true false f p h = rw (h refl) refl
skip_seen false b f p h = refl

add_new :
    (a b f p : Bool)
    → (a ≡ true → p ≡ false)
    → ((a || f) || (b && not p)) ≡ (f || ((a || b) && not p))
add_new true b true p h = refl
add_new true b false p h = rw (h refl) refl
add_new false b f p h = refl

contains-add_names :
    (seen : Option (List (List ℕ))) (s : List ℕ) (ts files : List (List ℕ))
    → contains s (add_names seen ts files)
      ≡ (contains s files || (contains s ts && not (is_processed seen s)))
unfolding add_names
contains-add_names seen s [] files = or_false (contains s files)
contains-add_names seen s (t ∷ ts) files = elim (Bool-cases (is_processed seen t)) [
  | inl p ↦ rw p (
      contains-add_names seen s ts files
      ∙ skip_seen (same_string s t) (contains s ts) (contains s files) (is_processed seen s)
          (λ e. ap (is_processed seen) (same_string_eq s t e) ∙ p))
  | inr q ↦ rw q (
      contains-add_names seen s ts (insert t files)
      ∙ ap (λ b. b || (contains s ts && not (is_processed seen s))) (contains-insert s t files)
      ∙ add_new (same_string s t) (contains s ts) (contains s files) (is_processed seen s)
          (λ e. ap (is_processed seen) (same_string_eq s t e) ∙ q))
]

-- The same of whatever the memory holds.
pub contains-get_data_file_list :
    (seen : Option (List (List ℕ))) (unwritten : List ℕ) (chunks files : List (List ℕ)) (s : List ℕ)
    → contains s (get_data_file_list seen (some (unwritten, chunks)) files).0 ≡ (
        contains s files
        || (contains s (tokens_from [] (c_string (write_memory unwritten chunks)))
            && not (is_processed seen s)))
unfolding get_data_file_list
contains-get_data_file_list seen unwritten chunks files s =
    contains-add_names seen s (tokens_from [] (c_string (write_memory unwritten chunks))) files

-- What `getDataFileList` leaves after a transfer that delivers at least one chunk: a name is
-- listed afterwards exactly if it was before, or is one of the tokens of what was delivered, up
-- to a zero, and not processed already; the size of the list is returned. Without a transfer
-- the list is as it was and the answer is the error.
pub get_data_file_list_lem :
    (seen : Option (List (List ℕ))) (unwritten : List ℕ) (chunks files : List (List ℕ)) (s : List ℕ)
    → 0 < length chunks
    → let r = get_data_file_list seen (some (unwritten, chunks)) files in
      let listed = tokens_from [] (c_string (flatten chunks ++ 0 ∷ [])) in
      (contains s r.0 ≡ (contains s files || (contains s listed && not (is_processed seen s))))
      × (r.1 ≡ some (length r.0))
      × (get_data_file_list seen none files ≡ (files, none))
unfolding get_data_file_list write_memory
get_data_file_list_lem seen unwritten [] files s h = absurd (omega arith)
get_data_file_list_lem seen unwritten (c ∷ cs) files s h =
    (contains-get_data_file_list seen unwritten (c ∷ cs) files s, refl, refl)
