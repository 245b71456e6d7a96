-- ===== src/Reader/Compress/Short.antt =====
-- Inputs that are shorter than the step.
use sparcs.Prelude.{
  ℕ, zero, suc, ◌+◌, ◌-◌, ◌^◌, ◌<◌, ◌≤◌, ◌≡◌, refl, Bool, true, Option, none, some, List, [], ◌∷◌,
  length, get_elem?, u32, arith, lt→ltb,
}
use sparcs.Reader.Compress.{
  out_of_range, size_of_int, sub_size, samples_from, block_from, block_sample, within_le, within_lt,
  smaller, larger, compressor_skip_sample, compressor_min_sample, compressor_max_sample,
  compressor_avg_sample,
}
use sparcs.Reader.Compress.Rounds.{
  size_of_int_small, u32_small, samples_from_throw, samples_from_next,
}

module _ {ℓ} {A : Type ℓ} where
  get_elem?_over : (xs : List A) (i : ℕ) → length xs ≤ i → get_elem? xs i ≡ none
  get_elem?_over [] i h = refl
  get_elem?_over (x ∷ xs) zero h = absurd (omega arith)
  get_elem?_over (x ∷ xs) (suc i) h = get_elem?_over xs i (omega arith)

  over_size_of_int :
      (xs : List A) (i : ℕ) → length xs ≤ i → i < 2 ^ 31 → get_elem? xs (size_of_int i) ≡ none
  over_size_of_int xs i h b = let s = size_of_int_small i b in rw s (get_elem?_over xs i h)

  get_elem?-some : (xs : List A) (i : ℕ) (x : A) → get_elem? xs i ≡ some x → i < length xs
  get_elem?-some [] i x e = ground arith
  get_elem?-some (y ∷ xs) zero x e = omega arith
  get_elem?-some (y ∷ xs) (suc i) x e = let r = get_elem?-some xs i x e in omega arith

  block_from_on :
      (f : A → A → A) (xs : List A) (fuel end j : ℕ) (acc : A) (o : Option A)
      → j < end
      → j < 2 ^ 31 - 1
      → get_elem? xs j ≡ o
      → ((x : A) → o ≡ some x → block_from f xs fuel end (j + 1) (f acc x) ≡ none)
      → block_from f xs (suc fuel) end j acc ≡ none
  block_from_on f xs fuel end j acc none h b e r =
      let t = lt→ltb j end h in
      let s = size_of_int_small j (omega arith) in rw (t, s, e, block_from)
  block_from_on f xs fuel end j acc (some x) h b e r =
      let t = lt→ltb j end h in
      let s = size_of_int_small j (omega arith) in
      let u = u32_small (j + 1) (omega arith) in rw (t, s, e, u, block_from) (r x refl)

  -- The inner loop reads behind the last sample.
  block_from_throw :
      (f : A → A → A) (xs : List A) (fuel end j : ℕ) (acc : A)
      → length xs < end
      → j ≤ length xs
      → end < 2 ^ 31
      → end - j ≤ fuel
      → block_from f xs fuel end j acc ≡ none
  block_from_throw f xs zero end j acc h l b q = absurd (omega arith)
  block_from_throw f xs (suc fuel) end j acc h l b q =
      block_from_on f xs fuel end j acc (get_elem? xs j) (omega arith) (omega arith) refl (λ x e.
        let k = get_elem?-some xs j x e in
        block_from_throw f xs fuel end (j + 1) (f acc x) h (omega arith) b (omega arith))

  block_sample_throw :
      (f : A → A → A) (fin : A → A) (xs : List A) (step : ℕ)
      → length xs < step
      → step < 2 ^ 31
      → block_sample f fin xs step 0 ≡ none
  block_sample_throw f fin [] step h b = refl
  block_sample_throw f fin (x ∷ xs) step h b =
      let e : u32 (0 + step) ≡ step = omega arith in
      let w = block_from_throw f (x ∷ xs) step step 1 x h (omega arith) b (omega arith) in
      rw (e, w, block_sample)

  within_first :
      (xs : List A) (step i : ℕ)
      → length xs < step
      → step < 2 ^ 31
      → i ≤ step
      → (within_le xs step i ≡ true) × (within_lt xs step i ≡ true)
  within_first xs step i h b l =
      let s = size_of_int_small i (omega arith) in
      let u : sub_size (length xs) step ≡ length xs + 2 ^ 64 - step = omega arith in
      (
        rw (s, u, within_le) (ground arith),
        rw (s, u, within_lt) (lt→ltb i (length xs + 2 ^ 64 - step) (omega arith)),
      )

  short_blocks :
      (f : A → A → A) (fin : A → A) (xs : List A) (step : ℕ)
      → length xs < step
      → step < 2 ^ 31
      → samples_from (within_le xs step) (block_sample f fin xs step) (suc (length xs)) step 0
        ≡ out_of_range
  short_blocks f fin xs step h b =
      samples_from_throw (within_le xs step) (block_sample f fin xs step) (length xs) step 0
        ((within_first xs step 0 h b (omega arith)).0) (block_sample_throw f fin xs step h b)

  short_skip :
      (xs : List A) (step : ℕ)
      → length xs < step
      → step < 2 ^ 31
      → compressor_skip_sample xs step ≡ out_of_range
  unfolding compressor_skip_sample
  short_skip [] step h b =
      samples_from_throw (within_lt {A = A} [] step) (λ i. get_elem? {A = A} [] (size_of_int i)) 0
        step 0 ((within_first [] step 0 h b (omega arith)).1) refl
  short_skip (x ∷ xs) step h b =
      samples_from_next (within_lt (x ∷ xs) step) (λ i. get_elem? (x ∷ xs) (size_of_int i))
        (suc (length xs)) step 0 x out_of_range ((within_first (x ∷ xs) step 0 h b (omega arith)).1)
        refl (omega arith)
        (samples_from_throw (within_lt (x ∷ xs) step) (λ i. get_elem? (x ∷ xs) (size_of_int i))
          (length xs) step (0 + step) ((within_first (x ∷ xs) step (0 + step) h b (omega arith)).1)
          (over_size_of_int (x ∷ xs) (0 + step) (omega arith) (omega arith)))

  -- If the step is longer than the input, then the compressors for the least, the greatest
  -- and the mean value, and the one that skips, all read behind the end, where `vector::at`
  -- throws.
  pub compressors_short :
      (lt : A → A → Bool) (add : A → A → A) (over : A → ℕ → A) (xs : List A) (step : ℕ)
      → length xs < step
      → step < 2 ^ 31
      → (compressor_min_sample lt xs step ≡ out_of_range)
        × (compressor_max_sample lt xs step ≡ out_of_range)
        × (compressor_avg_sample add over xs step ≡ out_of_range)
        × (compressor_skip_sample xs step ≡ out_of_range)
  unfolding compressor_min_sample compressor_max_sample compressor_avg_sample
  compressors_short lt add over xs step h b = (
    short_blocks (smaller lt) (λ m. m) xs step h b,
    short_blocks (larger lt) (λ m. m) xs step h b,
    short_blocks add (λ sum. over sum step) xs step h b,
    short_skip xs step h b,
  )
