-- ===== src/Ftp/FileList/Tests.antt =====
-- A listing of two files, one of them processed.
use sparcs.Prelude.{
  ℕ, ◌≡◌, refl, arith, not, ◌&&◌, ◌||◌, Option, none, some, List, [], ◌∷◌, ◌++◌, length,
}
use mathlib.Core.List.{flatten}
use sparcs.Ftp.FileList.{
  contains, is_processed, get_data_file_list, tokens_from, c_string, write_memory, add_names,
  insert,
}
use sparcs.Ftp.FileList.Filter.{get_data_file_list_lem}
use sparcs.Ftp.FileList.Lines.{names_come_back}

abbrev file_a : List ℕ
file_a = 97 ∷ 46 ∷ 100 ∷ []

abbrev file_b : List ℕ
file_b = 98 ∷ 46 ∷ 100 ∷ []

-- The transfer delivers the lines in two chunks.
abbrev chunks : List (List ℕ)
chunks = (97 ∷ 46 ∷ []) ∷ (100 ∷ 10 ∷ 98 ∷ 46 ∷ 100 ∷ 10 ∷ []) ∷ []

-- What `malloc` left.
abbrev garbage : List ℕ
garbage = 99 ∷ 100 ∷ 0 ∷ []

names_come_back_example :
    tokens_from [] (c_string (write_memory garbage chunks)) ≡ file_a ∷ file_b ∷ []
unfolding flatten
names_come_back_example =
    names_come_back (file_a ∷ file_b ∷ []) chunks garbage
      (
        omega arith,
        (
          (λ e. omega arith),
          (λ e. omega arith),
          ((λ e. omega arith), (λ e. omega arith), ((λ e. omega arith), (λ e. omega arith), tt)),
        ),
        (
          omega arith,
          (
            (λ e. omega arith),
            (λ e. omega arith),
            ((λ e. omega arith), (λ e. omega arith), ((λ e. omega arith), (λ e. omega arith), tt)),
          ),
          tt,
        ),
      )
      (omega arith) refl

abbrev seen : Option (List (List ℕ))
seen = some (file_a ∷ [])

get_data_file_list_example :
    let r = get_data_file_list seen (some (garbage, chunks)) [] in
    let listed = tokens_from [] (c_string (flatten chunks ++ 0 ∷ [])) in
    (contains file_b r.0
      ≡ (contains file_b [] || (contains file_b listed && not (is_processed seen file_b))))
    × (r.1 ≡ some (length r.0))
    × (get_data_file_list seen none [] ≡ ([], none))
get_data_file_list_example = get_data_file_list_lem seen garbage chunks [] file_b (omega arith)

only_the_new : get_data_file_list seen (some (garbage, chunks)) [] ≡ (file_b ∷ [], some 1)
unfolding get_data_file_list write_memory add_names insert flatten
only_the_new = refl

-- An empty directory: what `malloc` left is taken for a name.
nothing_delivered : get_data_file_list seen (some (garbage, [])) [] ≡ ((99 ∷ 100 ∷ []) ∷ [], some 1)
unfolding get_data_file_list write_memory add_names insert
nothing_delivered = refl
