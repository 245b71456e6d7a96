-- ===== src/Ftp/FileList.antt =====
-- The list of data files of a directory: `upmuFtpAccess::getDataFileList` in upmuFtpAccess.cpp, and
-- the callback that collects what a transfer delivers. The transfer itself is libcurl's: the chunks
-- that it hands to the callback are an argument, `none` where no channel is there or it fails, and
-- `realloc` finds memory. A `std::set` is a list without repetition.
pub mod Filter
pub mod Lines
mod Tests
use sparcs.Prelude.{
  ℕ, Bool, true, false, not, ◌&&◌, ◌||◌, Option, none, some, List, [], ◌∷◌, ◌++◌, length, ◌==◌, ltb,
  if◌then◌else◌,
}
use mathlib.Core.List.{flatten}
pub use sparcs.Prelude.Text.{same_string, c_string, flush}

-- `find(s) != end()` and `insert(s)` of a set of strings.
abbrev pub contains : List ℕ → List (List ℕ) → Bool
contains s [] = false
contains s (t ∷ ts) = same_string s t || contains s ts

unfoldable pub insert : List ℕ → List (List ℕ) → List (List ℕ)
insert s ts = if contains s ts then ts else s ∷ ts

-- `operator<` of strings, by their characters.
abbrev pub string_less : List ℕ → List ℕ → Bool
string_less [] [] = false
string_less [] (y ∷ ys) = true
string_less (x ∷ xs) [] = false
string_less (x ∷ xs) (y ∷ ys) = let rest = string_less xs ys in ltb x y || ((x == y) && rest)

-- `*begin()` of a set of strings that holds `s` and `ts`.
abbrev pub first_of : List ℕ → List (List ℕ) → List ℕ
first_of s [] = s
first_of s (t ∷ ts) = first_of (if string_less t s then t else s) ts

-- `erase(s)`
abbrev pub erase : List ℕ → List (List ℕ) → List (List ℕ)
erase s [] = []
erase s (t ∷ ts) = let rest = erase s ts in if same_string s t then rest else t ∷ rest

-- `WriteMemoryCallback`: a chunk stands behind those before, and a zero behind it. Both are the
-- memory after a transfer, without what `malloc` left behind the zero. Where nothing is delivered the
-- callback never runs, and the memory is what `malloc` left, the first argument.
unfoldable pub write_memory : List ℕ → List (List ℕ) → List ℕ
write_memory unwritten [] = unwritten
write_memory unwritten (c ∷ cs) = flatten (c ∷ cs) ++ 0 ∷ []

-- The tokens between line feeds, none of them empty, behind the part `part` of the first.
abbrev pub tokens_from : List ℕ → List ℕ → List (List ℕ)
tokens_from part [] = flush part
tokens_from part (c ∷ cs) =
    let after = tokens_from [] cs in
    let within = tokens_from (part ++ c ∷ []) cs in if c == 10 then flush part ++ after else within

-- `processedFileList` may be null.
abbrev pub is_processed : Option (List (List ℕ)) → List ℕ → Bool
is_processed none s = false
is_processed (some seen) s = contains s seen

-- The loop over the tokens.
unfoldable pub add_names : Option (List (List ℕ)) → List (List ℕ) → List (List ℕ) → List (List ℕ)
unfolding insert
add_names seen [] files = files
add_names seen (t ∷ ts) files =
    add_names seen ts (if is_processed seen t then files else insert t files)

-- The new list of files, and the size returned; `none` is DATA_ACCESS_ERROR. A transfer
-- is what `malloc` left and the chunks; without a chunk the code reads the memory all the same.
unfoldable pub get_data_file_list :
    Option (List (List ℕ))
    → Option (List ℕ × List (List ℕ))
    → List (List ℕ)
    → List (List ℕ) × Option ℕ
unfolding write_memory add_names
get_data_file_list seen none files = (files, none)
get_data_file_list seen (some (unwritten, chunks)) files =
    let files' = add_names seen (tokens_from [] (c_string (write_memory unwritten chunks))) files in
    (files', some (length files'))
