-- ===== src/Reader/Response.antt =====
-- The answer of cassspeed/main.cpp for one device: the rows of the query are put together by
-- channel, and each chosen compressor is applied to each requested channel. What the database
-- answers, and the operations on `float`, are arguments. `none` and `out_of_range` are what the code
-- does not return from normally.
mod Tests
use sparcs.Prelude.{
  ℕ, zero, suc, ◌+◌, ◌*◌, ◌/◌, ◌%◌, ◌^◌, Bool, true, false, not, Option, none, some, List, [], ◌∷◌,
  ◌++◌, map, length, drop, bit_and, ltb, ◌==◌, if◌then◌else◌,
}
use mathlib.Core.List.{flatten}
use sparcs.Reader.Compress.{
  Compressed, samples, out_of_range, running, compressor_skip_sample, compressor_raw,
  compressor_min_sample, compressor_max_sample, compressor_avg_sample,
}

-- The twelve vectors, in the order of `requested`.
pub data VectorName : Type 0 where
  l1mag l2mag l3mag l1ang l2ang l3ang c1mag c2mag c3mag c1ang c2ang c3ang : VectorName

abbrev pub channels : List VectorName
channels =
    l1mag ∷ l2mag ∷ l3mag ∷ l1ang ∷ l2ang ∷ l3ang ∷ c1mag ∷ c2mag ∷ c3mag ∷ c1ang ∷ c2ang ∷ c3ang
    ∷ []

-- The cases of the `switch`, in the order of `lookuptable`.
pub data Method : Type 0 where
  min max avg skip raw : Method

abbrev pub lookuptable : List Method
lookuptable = min ∷ max ∷ avg ∷ skip ∷ raw ∷ []

-- The operations on samples: `<`, `+`, and the quotient by the step.
pub record SampleOps {ℓ} (A : Type ℓ) : Type ℓ where
  pub lt : A → A → Bool
  pub add : A → A → A
  pub over : A → ℕ → A

pub record SampleSet {ℓ} (A : Type ℓ) : Type ℓ where
  pub name : VectorName
  pub compression : Method
  pub sample : List A

-- A sample of a row, by channel.
abbrev pub Row {ℓ} : Type ℓ → Type ℓ
Row A = VectorName → A

-- `(tmp%1000)/8.33333333`, cut to an `int`.
unfoldable pub samples_to_skip : ℕ → ℕ
samples_to_skip tmp = tmp % 1000 * 100000000 / 833333333

-- `cass_int64_t timestampcass`: the least of the rows' times.
abbrev pub least_time : Option ℕ → List ℕ → Option ℕ
least_time t [] = t
least_time none (n ∷ ns) = least_time (some n) ns
least_time (some t) (n ∷ ns) = least_time (some (if ltb n t then n else t)) ns

-- `CHECK_BIT`
abbrev pub check_bit : ℕ → ℕ → Bool
check_bit var pos = not (bit_and var (2 ^ pos) == 0)

module _ {ℓ} {A : Type ℓ} where
  -- A vector once all rows are read.
  unfoldable pub vector_of : VectorName → List (List (Row A)) → List A
  vector_of c rows = map (λ s. s c) (flatten rows)

  -- `erase(begin(), begin()+n)`, which has no meaning behind the end.
  unfoldable pub erase_front : ℕ → List A → Option (List A)
  erase_front n xs = if ltb (length xs) n then none else some (drop n xs)

  unfoldable pub compress : SampleOps A → Method → List A → ℕ → Compressed A
  compress F min input step = compressor_min_sample F.lt input step
  compress F max input step = compressor_max_sample F.lt input step
  compress F avg input step = compressor_avg_sample F.add F.over input step
  compress F skip input step = compressor_skip_sample input step
  compress F raw input step = compressor_raw input step

  -- The body of `if (requested[k])`: the set of samples, and the global `numsamples` after it.
  unfoldable pub add_sampleset :
      SampleOps A → Method → VectorName → List A → ℕ → ℕ → Compressed (SampleSet A) × ℕ
  add_sampleset F m c input step numsamples = elim (compress F m input step) [
    | samples xs ↦ (samples (record { name = c; compression = m; sample = xs } ∷ []), length xs)
    | out_of_range ↦ (out_of_range, numsamples)
    | running ↦ (running, numsamples)
  ]

  abbrev pub behind :
      List (SampleSet A) → Compressed (SampleSet A) × ℕ → Compressed (SampleSet A) × ℕ
  behind xs (samples ys, n) = (samples (xs ++ ys), n)
  behind xs (out_of_range, n) = (out_of_range, n)
  behind xs (running, n) = (running, n)

  -- What stands one after the other: an exception leaves the rest.
  abbrev pub and_then :
      Compressed (SampleSet A) × ℕ
      → (ℕ → Compressed (SampleSet A) × ℕ)
      → Compressed (SampleSet A) × ℕ
  and_then (samples xs, n) next = behind xs (next n)
  and_then (out_of_range, n) next = (out_of_range, n)
  and_then (running, n) next = (running, n)

  -- The twelve blocks `if (requested[k])`.
  unfoldable pub sample_sets :
      SampleOps A
      → Method
      → (VectorName → Bool)
      → (VectorName → List A)
      → ℕ
      → List VectorName
      → ℕ
      → Compressed (SampleSet A) × ℕ
  sample_sets F m requested vector step [] numsamples = (samples [], numsamples)
  sample_sets F m requested vector step (c ∷ cs) numsamples =
      and_then
        (if requested c
          then add_sampleset F m c (vector c) step numsamples
          else (samples [], numsamples))
        (sample_sets F m requested vector step cs)

  -- `for(int compress=1;compress<=5;compress++)`, from the bit `pos`.
  unfoldable pub output_sets :
      SampleOps A
      → ℕ
      → (VectorName → Bool)
      → (VectorName → List A)
      → ℕ
      → ℕ
      → List Method
      → ℕ
      → Compressed (SampleSet A) × ℕ
  output_sets F compression_method requested vector step pos [] numsamples =
      (samples [], numsamples)
  output_sets F compression_method requested vector step pos (m ∷ ms) numsamples =
      and_then
        (if check_bit compression_method pos
          then sample_sets F m requested vector step channels numsamples
          else (samples [], numsamples))
        (output_sets F compression_method requested vector step (suc pos) ms)
