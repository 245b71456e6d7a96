-- ===== src/Ftp/Swap/Tests.antt =====
-- A file that ends within a second.
use sparcs.Prelude.{ℕ, ◌≡◌, refl, some, List, [], ◌∷◌, arith}
use sparcs.Ftp.Swap.{post_process_upmu_data, swap_bytes_uint}
use sparcs.Ftp.Swap.Words.{AreBytes}

swap_of_a_word : swap_bytes_uint 305419896 ≡ 2018915346
unfolding swap_bytes_uint
swap_of_a_word = refl

-- The year 2018, the least significant byte first, is left as it is.
abbrev host_file : List ℕ
host_file = 0 ∷ 0 ∷ 240 ∷ 66 ∷ 226 ∷ 7 ∷ 0 ∷ 0 ∷ []

host_order : post_process_upmu_data host_file ≡ some host_file
unfolding post_process_upmu_data
host_order = refl

abbrev wire_file : List ℕ
wire_file = 66 ∷ 240 ∷ 0 ∷ 0 ∷ 0 ∷ 0 ∷ 7 ∷ 226 ∷ []

wire_file-AreBytes : AreBytes wire_file
wire_file-AreBytes = (
  omega arith,
  (
    omega arith,
    (omega arith, (omega arith, (omega arith, (omega arith, (omega arith, (omega arith, tt)))))),
  ),
)
