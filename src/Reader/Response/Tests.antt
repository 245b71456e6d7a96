-- ===== src/Reader/Response/Tests.antt =====
-- Two channels of one device, their least values and themselves.
use sparcs.Prelude.{ℕ, ◌+◌, ◌/◌, ◌≡◌, refl, Bool, true, false, List, [], ◌∷◌, some, none, ltb}
use mathlib.Core.List.{flatten}
use sparcs.Reader.Compress.{samples, compressor_min_sample, compressor_raw}
use sparcs.Reader.Response.{
  VectorName, l1mag, c3ang, min, raw, lookuptable, SampleOps, Row, samples_to_skip, least_time,
  vector_of, erase_front, add_sampleset, sample_sets, output_sets, compress,
}

abbrev ops : SampleOps ℕ
ops = record { lt = ltb; add = ◌+◌; over = ◌/◌ }

abbrev requested : VectorName → Bool
requested l1mag = true
requested c3ang = true
requested _ = false

abbrev vector : VectorName → List ℕ
vector l1mag = 4 ∷ 3 ∷ 8 ∷ 7 ∷ []
vector _ = 1 ∷ 2 ∷ []

abbrev row : List (Row ℕ)
row = (λ c. 7) ∷ (λ c. 6) ∷ []

skip_of_a_time : samples_to_skip 1480355400500 ≡ 60
unfolding samples_to_skip
skip_of_a_time = refl

least_of_rows : least_time none (8 ∷ 5 ∷ 6 ∷ []) ≡ some 5
least_of_rows = refl

columns : erase_front 1 (vector_of l1mag (row ∷ row ∷ [])) ≡ some (6 ∷ 7 ∷ 6 ∷ [])
unfolding erase_front vector_of flatten
columns = refl

-- Bits 0 and 4: Min and Raw.
both_methods : output_sets ops 17 requested vector 2 0 lookuptable 0 ≡ (
  samples (
      record { name = l1mag; compression = min; sample = 3 ∷ 7 ∷ [] }
      ∷ record { name = c3ang; compression = min; sample = 1 ∷ [] }
      ∷ record { name = l1mag; compression = raw; sample = 4 ∷ 3 ∷ 8 ∷ 7 ∷ [] }
      ∷ record { name = c3ang; compression = raw; sample = 1 ∷ 2 ∷ [] }
      ∷ []),
  2,
)
unfolding output_sets sample_sets add_sampleset compress compressor_min_sample compressor_raw
both_methods = refl
