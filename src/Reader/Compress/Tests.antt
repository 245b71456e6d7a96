-- ===== src/Reader/Compress/Tests.antt =====
-- Seven samples in blocks of three, and in one of nine.
use sparcs.Prelude.{ℕ, ◌+◌, ◌/◌, ◌≡◌, refl, List, [], ◌∷◌, ltb, arith}
use mathlib.Core.List.{flatten}
use sparcs.Reader.Compress.{
  samples, running, compressor_skip_sample, compressor_min_sample, compressor_max_sample,
  compressor_avg_sample,
}
use sparcs.Reader.Compress.Blocks.{compressors-blocks}

abbrev seven : List ℕ
seven = 5 ∷ 2 ∷ 9 ∷ 4 ∷ 4 ∷ 1 ∷ 8 ∷ []

abbrev six : List ℕ
six = 5 ∷ 2 ∷ 9 ∷ 4 ∷ 4 ∷ 1 ∷ []

min_of_seven : compressor_min_sample ltb seven 3 ≡ samples (2 ∷ 1 ∷ [])
unfolding compressor_min_sample
min_of_seven = refl

skip_of_seven : compressor_skip_sample seven 3 ≡ samples (5 ∷ 4 ∷ [])
unfolding compressor_skip_sample
skip_of_seven = refl

-- The last block is left out.
skip_of_six : compressor_skip_sample six 3 ≡ samples (5 ∷ [])
unfolding compressor_skip_sample
skip_of_six = refl

-- A step of zero never comes to an end.
min_no_step : compressor_min_sample ltb seven 0 ≡ running
unfolding compressor_min_sample
min_no_step = refl

compressors-blocks_example :
    (compressor_min_sample ltb seven 3 ≡ samples (2 ∷ 1 ∷ []))
    × (compressor_max_sample ltb seven 3 ≡ samples (9 ∷ 4 ∷ []))
    × (compressor_avg_sample ◌+◌ ◌/◌ seven 3 ≡ samples (5 ∷ 3 ∷ []))
unfolding flatten
compressors-blocks_example =
    compressors-blocks ltb ◌+◌ ◌/◌ seven 3 (omega arith) (omega arith) (omega arith)
