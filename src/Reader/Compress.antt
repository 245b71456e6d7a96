-- ===== src/Reader/Compress.antt =====
-- The compressors of cassspeed/main.cpp. Samples are of any type, with the test `<` of `float`, and
-- the sum and the quotient where the code takes a mean. An `int` index is its 32 bits, which
-- comparison with a `size_t` extends by its sign.
mod Rounds
pub mod Blocks
pub mod Short
mod Tests
use sparcs.Prelude.{
  ℕ, zero, suc, ◌+◌, ◌-◌, ◌^◌, ◌%◌, Bool, true, false, Option, none, some, List, [], ◌∷◌, length,
  get_elem?, ltb, leb, if◌then◌else◌, u32,
}

-- What a call does: it returns with these samples, `vector::at` throws, or the loop has not ended.
pub data Compressed {ℓ} (A : Type ℓ) : Type ℓ where
  samples : List A → Compressed A
  out_of_range running : Compressed A

-- The conversion of an `int` to `size_t`.
abbrev pub size_of_int : ℕ → ℕ
size_of_int i = if ltb i (2 ^ 31) then i else i + (2 ^ 64 - 2 ^ 32)

-- `input->size()-stepsize`
abbrev pub sub_size : ℕ → ℕ → ℕ
sub_size size step = (size + 2 ^ 64 - step) % 2 ^ 64

module _ {ℓ} {A : Type ℓ} where
  abbrev pub push_back : A → Compressed A → Compressed A
  push_back x (samples xs) = samples (x ∷ xs)
  push_back x out_of_range = out_of_range
  push_back x running = running

  -- `for (int i=0; within i; i=i+stepsize)` around `output->push_back(sample i)`.
  abbrev pub samples_from : (ℕ → Bool) → (ℕ → Option A) → ℕ → ℕ → ℕ → Compressed A
  samples_from within sample zero step i = running
  samples_from within sample (suc fuel) step i = elim (within i) [
    | false ↦ samples []
    | true ↦ elim (sample i) [
      | none ↦ out_of_range
      | some x ↦ push_back x (samples_from within sample fuel step (u32 (i + step)))
    ]
  ]

  -- `for(int j=i+1;j<i+stepsize;j++)` around the change of the value by `input->at(j)`. The loop has
  -- less than `step` rounds, so that the fuel `step` does not end.
  abbrev pub block_from : (A → A → A) → List A → ℕ → ℕ → ℕ → A → Option A
  block_from f input zero end j acc = some acc
  block_from f input (suc fuel) end j acc = elim (ltb j end) [
    | false ↦ some acc
    | true ↦ elim (get_elem? input (size_of_int j)) [
      | none ↦ none
      | some x ↦ block_from f input fuel end (u32 (j + 1)) (f acc x)
    ]
  ]

  -- The body of the outer loop: `input->at(i)`, the inner loop, and what is pushed.
  abbrev pub block_sample : (A → A → A) → (A → A) → List A → ℕ → ℕ → Option A
  block_sample f fin input step i = elim (get_elem? input (size_of_int i)) [
    | none ↦ none
    | some x ↦ elim (block_from f input step (u32 (i + step)) (u32 (i + 1)) x) [
      | none ↦ none
      | some y ↦ some (fin y)
    ]
  ]

  -- `i<=input->size()-stepsize`, and `<` where samples are skipped.
  abbrev pub within_le : List A → ℕ → ℕ → Bool
  within_le input step i = leb (size_of_int i) (sub_size (length input) step)

  abbrev pub within_lt : List A → ℕ → ℕ → Bool
  within_lt input step i = ltb (size_of_int i) (sub_size (length input) step)

  abbrev pub smaller : (A → A → Bool) → A → A → A
  smaller lt m x = if lt x m then x else m

  abbrev pub larger : (A → A → Bool) → A → A → A
  larger lt m x = if lt m x then x else m

  -- The loops that end have at most one round for each sample.
  unfoldable pub compressor_skip_sample : List A → ℕ → Compressed A
  compressor_skip_sample input step =
      samples_from (within_lt input step) (λ i. get_elem? input (size_of_int i))
        (suc (length input)) step 0

  unfoldable pub compressor_raw : List A → ℕ → Compressed A
  compressor_raw input step = samples input

  unfoldable pub compressor_min_sample : (A → A → Bool) → List A → ℕ → Compressed A
  compressor_min_sample lt input step =
      samples_from (within_le input step) (block_sample (smaller lt) (λ m. m) input step)
        (suc (length input)) step 0

  unfoldable pub compressor_max_sample : (A → A → Bool) → List A → ℕ → Compressed A
  compressor_max_sample lt input step =
      samples_from (within_le input step) (block_sample (larger lt) (λ m. m) input step)
        (suc (length input)) step 0

  unfoldable pub compressor_avg_sample : (A → A → A) → (A → ℕ → A) → List A → ℕ → Compressed A
  compressor_avg_sample add over input step =
      samples_from (within_le input step) (block_sample add (λ sum. over sum step) input step)
        (suc (length input)) step 0
