-- ===== src/Ftp/Voltage/Ending.antt =====
-- The search for events comes to an end.
use sparcs.Prelude.{
  ℕ, zero, suc, ◌+◌, ◌*◌, ◌<◌, ◌≤◌, ◌≡◌, refl, Bool, true, false, none, some, List, [], ◌∷◌, length,
  get_elem?, ◌-◌, ltb, leb, if◌then◌else◌, arith, Bool-cases, Option-cases, ltb→lt, ◌⊎◌, inl, inr,
}
use mathlib.Core.Path.{subst}
use sparcs.Ftp.Voltage.{
  Kind, sag, interruption, swell, Limits, Settings, Phase, label_event, keep_count, inside, kind_of,
  run, scan, begin_phase, end_phase, voltage_limits,
}

-- A count that the next sample of its kind takes beyond `over`.
abbrev high : ℕ → ℕ → ℕ
high over n = if leb over n then 1 else 0

abbrev highs : Settings → Phase → ℕ
highs c ph =
    high c.over (ph.count sag) + high c.over (ph.count interruption) + high c.over (ph.count swell)

label_event-count :
    (c : Settings) (k : Kind) (jj v : ℕ) (ph : Phase) → (label_event c k jj v ph).count ≡ ph.count
unfolding label_event
label_event-count c k jj v ph = ground arith

keep_count-highs :
    (c : Settings) (len : ℕ) (k : Kind) (jj v : ℕ) (ph : Phase)
    → 0 < c.over
    → highs c (keep_count c len k jj v ph) + high c.over (ph.count k)
      ≤ highs c ph + (if leb v c.over then 1 else 0)
unfolding keep_count
keep_count-highs c len sag jj v ph h = ground arith
keep_count-highs c len interruption jj v ph h = ground arith
keep_count-highs c len swell jj v ph h = ground arith

highs_le : (c : Settings) (ph : Phase) → highs c ph ≤ 3
highs_le c ph = ground arith

-- What a round does to the counts.
event-highs :
    (c : Settings) (len : ℕ) (k : Kind) (jj v : ℕ) (ph : Phase)
    → 0 < c.over
    → highs c (keep_count c len k jj v (label_event c k jj v ph)) + high c.over (ph.count k)
      ≤ highs c ph + (if leb v c.over then 1 else 0)
event-highs c len k jj v ph h =
    let ph' = label_event c k jj v ph in
    subst
      (λ (f : Kind → ℕ).
        highs c (keep_count c len k jj v ph') + high c.over (f k)
        ≤ high c.over (f sag)
          + high c.over (f interruption)
          + high c.over (f swell)
          + (if leb v c.over then 1 else 0))
      (label_event-count c k jj v ph) (keep_count-highs c len k jj v ph' h)

-- A round leaves fewer.
fewer :
    (n n' hs hs' v w over fuel : ℕ)
    → hs' + high over w ≤ hs + (if leb v over then 1 else 0)
    → (n' ≤ n) ⊎ ((n' ≡ suc n) × (over ≤ w) × (leb v over ≡ false))
    → 2 * suc n + hs < suc fuel
    → 2 * n' + hs' < fuel
fewer n n' hs hs' v w over fuel h m b = ground arith

module _ {ℓ} {A : Type ℓ} where
  run-length :
      (p : A → Bool) (over : ℕ) (xs : List A) (jj v : ℕ)
      → length ((run p over xs jj v).0) ≤ length xs
  run-length p over [] jj v = omega arith
  run-length p over (x ∷ xs) jj v = let r = run-length p over xs (suc jj) (suc v) in ground arith

  run_stop :
      (p : A → Bool) (over : ℕ) (x : A) (xs : List A) (jj v : ℕ)
      → p x ≡ true
      → ltb over (suc v) ≡ true
      → run p over (x ∷ xs) jj v ≡ (x ∷ xs, jj, suc v)
  run_stop p over x xs jj v h t = ground arith

  run_on :
      (p : A → Bool) (over : ℕ) (x : A) (xs : List A) (jj v : ℕ)
      → p x ≡ true
      → ltb over (suc v) ≡ false
      → run p over (x ∷ xs) jj v ≡ run p over xs (suc jj) (suc v)
  run_on p over x xs jj v h t = ground arith

  -- The inner loop stays at its first sample only if that one takes the count beyond `over`.
  run-advance :
      (p : A → Bool) (over : ℕ) (x : A) (xs : List A) (jj v : ℕ)
      → p x ≡ true
      → let r = run p over (x ∷ xs) jj v in
        (length r.0 ≤ length xs)
        ⊎ ((length r.0 ≡ suc (length xs)) × (over ≤ v) × (leb r.2 over ≡ false))
  run-advance p over x xs jj v h = elim (Bool-cases (ltb over (suc v))) [
    | inl t ↦
        let e = run_stop p over x xs jj v h t in
        let l : over < suc v = omega (arith, ltb→lt) in rw e (inr (refl, omega arith, ground arith))
    | inr t ↦
        let e = run_on p over x xs jj v h t in rw e (inl (run-length p over xs (suc jj) (suc v)))
  ]

  -- The first test that holds is that of the inner loop.
  kind_of-inside : (l : Limits A) (x : A) (k : Kind) → kind_of l x ≡ some k → inside l k x ≡ true
  kind_of-inside l x sag e = ground arith
  kind_of-inside l x interruption e = ground arith
  kind_of-inside l x swell e = ground arith

  scan_normal :
      (fuel : ℕ) (l : Limits A) (c : Settings) (len : ℕ) (x : A) (xs : List A) (jj : ℕ) (ph : Phase)
      → kind_of l x ≡ none
      → scan (suc fuel) l c len (x ∷ xs) jj ph ≡ scan fuel l c len xs (suc jj) ph
  unfolding scan
  scan_normal fuel l c len x xs jj ph e = rw (e, scan)

  scan_event :
      (fuel : ℕ) (l : Limits A) (c : Settings) (len : ℕ) (x : A) (xs : List A) (jj : ℕ) (ph : Phase)
      (k : Kind)
      → kind_of l x ≡ some k
      → scan (suc fuel) l c len (x ∷ xs) jj ph ≡ (
          let r = run (inside l k) c.over (x ∷ xs) jj (ph.count k) in
          scan fuel l c len r.0 r.1 (keep_count c len k r.1 r.2 (label_event c k r.1 r.2 ph)))
  unfolding scan
  scan_event fuel l c len x xs jj ph k e = rw (e, scan)

  scan_ends :
      (fuel : ℕ) (l : Limits A) (c : Settings) (len : ℕ) (xs : List A) (jj : ℕ) (ph : Phase)
      → 0 < c.over
      → 2 * length xs + highs c ph < fuel
      → (r : Phase) × (scan fuel l c len xs jj ph ≡ some r)
  scan_ends zero l c len xs jj ph o h = absurd (omega arith)
  scan_ends (suc fuel) l c len [] jj ph o h = (ph, unfold scan in refl)
  scan_ends (suc fuel) l c len (x ∷ xs) jj ph o h = elim (Option-cases (kind_of l x)) [
    | inl e ↦
        let s = scan_normal fuel l c len x xs jj ph e in
        rw s (scan_ends fuel l c len xs (suc jj) ph o (omega arith))
    | inr found ↦
        let (k, e) = found in
        let s = scan_event fuel l c len x xs jj ph k e in
        let r = run (inside l k) c.over (x ∷ xs) jj (ph.count k) in
        let ph' = keep_count c len k (r.1) (r.2) (label_event c k (r.1) (r.2) ph) in
        let less = event-highs c len k (r.1) (r.2) ph o in
        let moved = run-advance (inside l k) c.over x xs jj (ph.count k) (kind_of-inside l x k e) in
        rw s (
          scan_ends fuel l c len (r.0) (r.1) ph' o (
            fewer (length xs) (length (r.0)) (highs c ph) (highs c ph') (r.2) (ph.count k) c.over
              fuel less moved h))
  ]

  voltage_limits-some :
      (fuel : ℕ) (l : Limits A) (c : Settings) (size : ℕ) (input : List A) (ph r : Phase)
      → scan fuel l c (length input) input 0 (begin_phase l input ph) ≡ some r
      → voltage_limits fuel l c size input ph ≡ some (end_phase l (get_elem? input (size - 1)) r)
  unfolding voltage_limits
  voltage_limits-some fuel l c size input ph r e = rw (e, voltage_limits)

  -- If the limit on the length of an event is not 0, then the search for voltage events in a
  -- phase of a window, in which the inner loop may stop without going on, ends within twice
  -- as many rounds as the window has samples and three more, whatever the counts kept from
  -- the window before.
  pub voltage_limits_end :
      (fuel : ℕ) (l : Limits A) (c : Settings) (size : ℕ) (input : List A) (ph : Phase)
      → 0 < c.over
      → 2 * length input + 3 < fuel
      → (r : Phase) × (voltage_limits fuel l c size input ph ≡ some r)
  voltage_limits_end fuel l c size input ph o h =
      let start = begin_phase l input ph in
      let few : highs c start ≤ 3 = highs_le c start in
      let (r, e) = scan_ends fuel l c (length input) input 0 start o (omega arith) in
      (end_phase l (get_elem? input (size - 1)) r, voltage_limits-some fuel l c size input ph r e)
