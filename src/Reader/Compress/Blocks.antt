-- ===== src/Reader/Compress/Blocks.antt =====
-- The samples of a compressor are those of the blocks of its input.
use sparcs.Prelude.{
  ℕ, zero, suc, ◌+◌, ◌-◌, ◌*◌, ◌/◌, ◌^◌, ◌<◌, ◌≤◌, ◌≡◌, refl, ap, ◌∙◌, sym, Bool, Option, some,
  List, [], ◌∷◌, map, foldl, length, get_elem?, take, drop, ltb, arith, lt→ltb,
}
use mathlib.Core.List.{flatten}
use native.Mathlib.Nat.{div-mul-le_self, lt-div-mul-add, div-le_self}
use sparcs.Reader.Compress.{
  samples, size_of_int, samples_from, block_sample, within_le, within_lt, smaller, larger,
  compressor_skip_sample, compressor_min_sample, compressor_max_sample, compressor_avg_sample,
}
use sparcs.Reader.Compress.Rounds.{
  blocks, value_of, size_of_int_small, sub_size_le, drop-suc, block_sample-value_of, map_id,
  drop-drop, value_of_next, samples_from_stop, samples_from_next,
}

module _ {ℓ} {A : Type ℓ} where
  flatten_value :
      (f : A → A → A) (fin : A → A) (b : List A) (bs : List (List A)) (y : A)
      → value_of f b ≡ y ∷ []
      → map fin (flatten (map (value_of f) (b ∷ bs)))
        ≡ fin y ∷ map fin (flatten (map (value_of f) bs))
  unfolding flatten
  flatten_value f fin b bs y e = rw e

module _ {ℓ} {A : Type ℓ} (f : A → A → A) (fin : A → A) (xs : List A) (step limit : ℕ)
    (within : ℕ → Bool) (sample : ℕ → Option A) (b : limit + step < 2 ^ 31)
    (hw : (i : ℕ) → i < limit + step → within i ≡ ltb i limit)
    (hs : (i : ℕ)
      → i < limit
      → (y : A) × ((sample i ≡ some (fin y)) × (value_of f (take step (drop i xs)) ≡ y ∷ []))) where
  -- The rounds that are left at `i`, `n` of them.
  samples_from-blocks :
      (fuel n i : ℕ)
      → n < fuel
      → limit ≤ i + n * step
      → i + n * step < limit + step
      → samples_from within sample fuel step i
        ≡ samples (map fin (flatten (map (value_of f) (blocks n step (drop i xs)))))
  unfolding flatten
  samples_from-blocks zero n i q lo hi = absurd (omega arith)
  samples_from-blocks (suc fuel) zero i q lo hi =
      samples_from_stop within sample fuel step i (hw i (omega arith) ∙ ground arith)
  samples_from-blocks (suc fuel) (suc n) i q lo hi =
      let e : suc n * step ≡ step + n * step = omega arith in
      let (y, (s, v)) = hs i (omega arith) in
      samples_from_next within sample fuel step i (fin y)
        (samples (map fin (flatten (map (value_of f) (blocks n step (drop (i + step) xs))))))
        (hw i (omega arith) ∙ lt→ltb i limit (omega arith)) s (omega arith)
        (samples_from-blocks fuel n (i + step) (omega arith) (omega arith) (omega arith))
      ∙ ap samples (
          sym (
            flatten_value f fin (take step (drop i xs)) (blocks n step (drop step (drop i xs))) y v
            ∙ ap (λ l. fin y ∷ map fin (flatten (map (value_of f) (blocks n step l))))
                (drop-drop step i xs)))

-- The rounds are no more than the samples.
module _ {ℓ} {A : Type ℓ} where
  within_le_small :
      (xs : List A) (step i : ℕ)
      → step ≤ length xs
      → length xs + step < 2 ^ 31
      → i < 2 ^ 31
      → within_le xs step i ≡ ltb i (length xs - step + 1)
  within_le_small xs step i h b c =
      let s = size_of_int_small i c in
      let u = sub_size_le (length xs) step h (omega arith) in rw (s, u, within_le) (ground arith)

  of_blocks :
      (f : A → A → A) (fin : A → A) (xs : List A) (step : ℕ)
      → 0 < step
      → step ≤ length xs
      → length xs + step < 2 ^ 31
      → samples_from (within_le xs step) (block_sample f fin xs step) (suc (length xs)) step 0
        ≡ samples (map fin (flatten (map (value_of f) (blocks (length xs / step) step xs))))
  of_blocks f fin xs step p h b =
      let le = div-mul-le_self (length xs) step in
      let lt = lt-div-mul-add {a = length xs} p in
      let few = div-le_self (length xs) step in
      samples_from-blocks f fin xs step (length xs - step + 1) (within_le xs step)
        (block_sample f fin xs step) (omega arith)
        (λ i l. within_le_small xs step i h b (omega arith))
        (λ i l. block_sample-value_of f fin xs step i p (omega arith) (omega arith))
        (suc (length xs)) (length xs / step) 0 (omega arith) (omega arith) (omega arith)

  -- For a step that is not 0 nor longer than the input, with numbers of samples that fit an
  -- `int`: the compressors for the least, the greatest and the mean value return one sample
  -- for each whole block of the step, which is the block put together from the left by the
  -- least, the greatest, or the sum over the step; what is left behind the last whole block
  -- is dropped.
  pub compressors-blocks :
      (lt : A → A → Bool) (add : A → A → A) (over : A → ℕ → A) (xs : List A) (step : ℕ)
      → 0 < step
      → step ≤ length xs
      → length xs + step < 2 ^ 31
      → (compressor_min_sample lt xs step
          ≡ samples (flatten (map (value_of (smaller lt)) (blocks (length xs / step) step xs))))
        × (compressor_max_sample lt xs step
            ≡ samples (flatten (map (value_of (larger lt)) (blocks (length xs / step) step xs))))
        × (compressor_avg_sample add over xs step
            ≡ samples (
                map
                  (λ sum. over sum step)
                  (flatten (map (value_of add) (blocks (length xs / step) step xs)))))
  unfolding compressor_min_sample compressor_max_sample compressor_avg_sample
  compressors-blocks lt add over xs step p h b = (
    of_blocks (smaller lt) (λ m. m) xs step p h b
        ∙ ap samples
            (map_id (flatten (map (value_of (smaller lt)) (blocks (length xs / step) step xs)))),
    of_blocks (larger lt) (λ m. m) xs step p h b
        ∙ ap samples
            (map_id (flatten (map (value_of (larger lt)) (blocks (length xs / step) step xs)))),
    of_blocks add (λ sum. over sum step) xs step p h b,
  )

  keep_first : (x : A) (xs : List A) → foldl (λ a c. a) x xs ≡ x
  keep_first x [] = refl
  keep_first x (y ∷ xs) = keep_first x xs

  within_lt_small :
      (xs : List A) (step i : ℕ)
      → step ≤ length xs
      → length xs + step < 2 ^ 31
      → i < 2 ^ 31
      → within_lt xs step i ≡ ltb i (length xs - step)
  within_lt_small xs step i h b c =
      let s = size_of_int_small i c in
      let u = sub_size_le (length xs) step h (omega arith) in rw (s, u, within_lt)

  skip_sample :
      (xs : List A) (step i : ℕ)
      → 0 < step
      → i < length xs
      → i < 2 ^ 31
      → (y : A) × ((get_elem? xs (size_of_int i) ≡ some y)
          × (value_of (λ a c. a) (take step (drop i xs)) ≡ y ∷ []))
  skip_sample xs step i p l c =
      let (x, (g, d)) = drop-suc i xs l in
      let s = size_of_int_small i c in
      (
        x,
        (
          rw s g,
          value_of_next (λ a c'. a) xs (step - 1) step i x (omega arith) d
              ∙ ap (λ y. y ∷ []) (keep_first x (take (step - 1) (drop (suc i) xs))),
        ),
      )

  -- For a step that is not 0 nor longer than the input, with numbers of samples that fit an
  -- `int`: the skipping compressor returns the first sample of each of the first (length - 1)
  -- / step blocks, so that an input of whole blocks loses its last one.
  pub compressor_skip_sample-blocks :
      (xs : List A) (step : ℕ)
      → 0 < step
      → step ≤ length xs
      → length xs + step < 2 ^ 31
      → compressor_skip_sample xs step
        ≡ samples (
            flatten
              (map (value_of (λ first other. first)) (blocks ((length xs - 1) / step) step xs)))
  unfolding compressor_skip_sample
  compressor_skip_sample-blocks xs step p h b =
      let n = (length xs - 1) / step in
      let le : n * step ≤ length xs - 1 = div-mul-le_self (length xs - 1) step in
      let lt : length xs - 1 < n * step + step = lt-div-mul-add {a = length xs - 1} p in
      let few : n ≤ length xs - 1 = div-le_self (length xs - 1) step in
      samples_from-blocks (λ first other. first) (λ m. m) xs step (length xs - step)
        (within_lt xs step) (λ i. get_elem? xs (size_of_int i)) (omega arith)
        (λ i l. within_lt_small xs step i h b (omega arith))
        (λ i l. skip_sample xs step i p (omega arith) (omega arith)) (suc (length xs)) n 0
        (omega arith) (omega arith) (omega arith)
      ∙ ap samples (map_id (flatten (map (value_of (λ first other. first)) (blocks n step xs))))
