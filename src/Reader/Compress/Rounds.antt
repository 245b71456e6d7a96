-- ===== src/Reader/Compress/Rounds.antt =====
-- A round of a compressor's loop: the inner loop, and the block that it takes in.
use sparcs.Prelude.{
  ℕ, zero, suc, ◌+◌, ◌-◌, ◌^◌, ◌<◌, ◌≤◌, ◌≡◌, refl, ap, ◌∙◌, Bool, true, false, Option, none, some,
  List, [], ◌∷◌, map, foldl, length, get_elem?, take, drop, ltb, u32, arith, Bool-cases, lt→ltb,
  ltb→lt, inl, inr,
}
use sparcs.Reader.Compress.{
  Compressed, samples, out_of_range, size_of_int, sub_size, push_back, samples_from, block_from,
  block_sample,
}

module _ {ℓ} {A : Type ℓ} where
  -- The first `n` blocks of `step` samples.
  abbrev pub blocks : ℕ → ℕ → List A → List (List A)
  blocks zero step xs = []
  blocks (suc n) step xs = take step xs ∷ blocks n step (drop step xs)

  -- The value of a block: its samples put together from the left.
  abbrev pub value_of : (A → A → A) → List A → List A
  value_of f [] = []
  value_of f (x ∷ xs) = foldl f x xs ∷ []

pub size_of_int_small : (i : ℕ) → i < 2 ^ 31 → size_of_int i ≡ i
size_of_int_small i h = ground arith

pub sub_size_le : (size step : ℕ) → step ≤ size → size < 2 ^ 31 → sub_size size step ≡ size - step
sub_size_le size step h b = omega arith

pub u32_small : (i : ℕ) → i < 2 ^ 31 → u32 i ≡ i
u32_small i h = omega arith

module _ {ℓ} {A : Type ℓ} where
  pub drop-suc :
      (i : ℕ) (xs : List A)
      → i < length xs
      → (x : A) × ((get_elem? xs i ≡ some x) × (drop i xs ≡ x ∷ drop (suc i) xs))
  drop-suc i [] h = absurd (omega arith)
  drop-suc zero (x ∷ xs) h = (x, (refl, refl))
  drop-suc (suc i) (x ∷ xs) h = drop-suc i xs (omega arith)

  pub block_from_end :
      (f : A → A → A) (xs : List A) (fuel end j : ℕ) (acc : A)
      → end ≤ j
      → block_from f xs fuel end j acc ≡ some acc
  block_from_end f xs zero end j acc h = refl
  block_from_end f xs (suc fuel) end j acc h =
      let t : ltb j end ≡ false = ground arith in rw (t, block_from)

  block_from_next :
      (f : A → A → A) (xs : List A) (fuel end j : ℕ) (acc x : A)
      → j < end
      → end < 2 ^ 31
      → get_elem? xs j ≡ some x
      → block_from f xs (suc fuel) end j acc ≡ block_from f xs fuel end (suc j) (f acc x)
  block_from_next f xs fuel end j acc x h b g =
      let t = lt→ltb j end h in
      let s = size_of_int_small j (omega arith) in
      let u : u32 (j + 1) ≡ suc j = omega arith in rw (t, s, g, u, block_from)

  foldl_next :
      (f : A → A → A) (xs : List A) (m n j : ℕ) (acc x : A)
      → n ≡ suc m
      → drop j xs ≡ x ∷ drop (suc j) xs
      → foldl f (f acc x) (take m (drop (suc j) xs)) ≡ foldl f acc (take n (drop j xs))
  foldl_next f xs m n j acc x e d = rw (e, d)

  -- The samples that an inner loop takes in.
  block_from-foldl :
      (f : A → A → A) (xs : List A) (fuel end j : ℕ) (acc : A)
      → end - j ≤ fuel
      → end ≤ length xs
      → length xs < 2 ^ 31
      → block_from f xs fuel end j acc ≡ some (foldl f acc (take (end - j) (drop j xs)))
  block_from-foldl f xs zero end j acc p e b = let z : end - j ≡ 0 = omega arith in rw z
  block_from-foldl f xs (suc fuel) end j acc p e b = elim (Bool-cases (ltb j end)) [
    | inl t ↦
        let lt : j < end = omega (arith, ltb→lt) in
        let (x, (g, d)) = drop-suc j xs (omega arith) in
        block_from_next f xs fuel end j acc x lt (omega arith) g
        ∙ (block_from-foldl f xs fuel end (suc j) (f acc x) (omega arith) e b
            ∙ ap some (foldl_next f xs (end - suc j) (end - j) j acc x (omega arith) d))
    | inr t ↦
        let le : end ≤ j = ground arith in
        let z : end - j ≡ 0 = omega arith in block_from_end f xs (suc fuel) end j acc le ∙ rw z
  ]

  block_sample_at :
      (f : A → A → A) (fin : A → A) (xs : List A) (step i : ℕ) (x : A)
      → 0 < step
      → i + step ≤ length xs
      → length xs < 2 ^ 31
      → get_elem? xs i ≡ some x
      → block_sample f fin xs step i ≡ some (fin (foldl f x (take (step - 1) (drop (suc i) xs))))
  block_sample_at f fin xs step i x p e b g =
      let s = size_of_int_small i (omega arith) in
      let u = u32_small (i + step) (omega arith) in
      let v = u32_small (i + 1) (omega arith) in
      let w = block_from-foldl f xs step (i + step) (i + 1) x (omega arith) e b in
      let m : i + step - (i + 1) ≡ step - 1 = omega arith in
      let k : i + 1 ≡ suc i = omega arith in rw (s, g, u, v, w, m, k, block_sample)

  pub value_of_next :
      (f : A → A → A) (xs : List A) (m n j : ℕ) (x : A)
      → n ≡ suc m
      → drop j xs ≡ x ∷ drop (suc j) xs
      → value_of f (take n (drop j xs)) ≡ foldl f x (take m (drop (suc j) xs)) ∷ []
  value_of_next f xs m n j x e d = rw (e, d)

  -- A round of the outer loop.
  pub block_sample-value_of :
      (f : A → A → A) (fin : A → A) (xs : List A) (step i : ℕ)
      → 0 < step
      → i + step ≤ length xs
      → length xs < 2 ^ 31
      → (y : A) × ((block_sample f fin xs step i ≡ some (fin y))
          × (value_of f (take step (drop i xs)) ≡ y ∷ []))
  block_sample-value_of f fin xs step i p e b =
      let (x, (g, d)) = drop-suc i xs (omega arith) in
      (
        foldl f x (take (step - 1) (drop (suc i) xs)),
        (
          block_sample_at f fin xs step i x p e b g,
          value_of_next f xs (step - 1) step i x (omega arith) d,
        ),
      )

  pub map_id : (l : List A) → map (λ x. x) l ≡ l
  map_id [] = refl
  map_id (x ∷ l) = ap (◌∷◌ x) (map_id l)

  drop_nil : (m : ℕ) → drop {A = A} m [] ≡ []
  drop_nil zero = refl
  drop_nil (suc m) = refl

  pub drop-drop : (m n : ℕ) (xs : List A) → drop m (drop n xs) ≡ drop (n + m) xs
  drop-drop m zero xs = ap (λ k. drop k xs) (omega arith)
  drop-drop m (suc n) [] = let e : suc (n + m) ≡ suc n + m = omega arith in rw (← e) (drop_nil m)
  drop-drop m (suc n) (x ∷ xs) =
      let e : suc (n + m) ≡ suc n + m = omega arith in rw (← e) (drop-drop m n xs)

  pub samples_from_stop :
      (within : ℕ → Bool) (sample : ℕ → Option A) (fuel step i : ℕ)
      → within i ≡ false
      → samples_from within sample (suc fuel) step i ≡ samples []
  samples_from_stop within sample fuel step i h = rw (h, samples_from)

  pub samples_from_throw :
      (within : ℕ → Bool) (sample : ℕ → Option A) (fuel step i : ℕ)
      → within i ≡ true
      → sample i ≡ none
      → samples_from within sample (suc fuel) step i ≡ out_of_range
  samples_from_throw within sample fuel step i h e = rw (h, e, samples_from)

  pub samples_from_next :
      (within : ℕ → Bool) (sample : ℕ → Option A) (fuel step i : ℕ) (x : A) (more : Compressed A)
      → within i ≡ true
      → sample i ≡ some x
      → i + step < 2 ^ 31
      → samples_from within sample fuel step (i + step) ≡ more
      → samples_from within sample (suc fuel) step i ≡ push_back x more
  samples_from_next within sample fuel step i x more h e b r =
      let u = u32_small (i + step) b in rw (h, e, u, r, samples_from)
