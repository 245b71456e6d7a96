-- ===== src/Reader/Client/Chunks.antt =====
-- The chunks of the client cover the time that was asked for.
use sparcs.Prelude.{
  ℕ, zero, suc, ◌+◌, ◌*◌, ◌/◌, ◌%◌, ◌^◌, ltb, u32, ◌≤◌, ◌<◌, ◌≡◌, refl, sym, ap, ◌∙◌, ◌⊎◌, inl, inr,
  true, false, List, [], ◌∷◌, arith, Bool-cases, ltb→lt,
}
use native.Mathlib.Decide.{dec_lt}
use sparcs.Ftp.FileTime.{int_of}
use sparcs.Reader.Client.Loop.{
  Answer, payload, LoopEnd, running, finished, chunk_end, is_last, before, chunk_loop,
}

module _ (delta_t stepsize timestampend : ℕ) (next : ℕ → ℕ → ℕ) where
  abbrev pub answered : ℕ → ℕ → Answer
  answered from until = payload (next from until)

  abbrev chunks : ℕ → ℕ → List (ℕ × ℕ) × LoopEnd
  chunks = chunk_loop delta_t stepsize timestampend true answered

  -- Some chunk begins no later than the time, is no longer than allowed, and is answered past it.
  abbrev pub Covered : ℕ → List (ℕ × ℕ) → Type 0
  Covered x [] = ⊥
  Covered x ((from, until) ∷ cs) =
      ((from ≤ x) × (until ≤ from + delta_t) × (until ≤ timestampend) × (x < next from until))
      ⊎ Covered x cs

  running-ne-finished : running ≡ finished → ⊥
  running-ne-finished e = cc

  no_round : (from : ℕ) → chunks 0 from ≡ ([], running)
  unfolding chunk_loop
  no_round from = refl

  last_round :
      (n from : ℕ)
      → is_last stepsize timestampend (next from (chunk_end delta_t timestampend from)) ≡ true
      → chunks (suc n) from ≡ ((from, chunk_end delta_t timestampend from) ∷ [], finished)
  unfolding chunk_loop
  last_round n from h = rw h refl

  next_round :
      (n from : ℕ)
      → is_last stepsize timestampend (next from (chunk_end delta_t timestampend from)) ≡ false
      → chunks (suc n) from
        ≡ before
            (from, chunk_end delta_t timestampend from)
            (chunks n (next from (chunk_end delta_t timestampend from)))
  unfolding chunk_loop
  next_round n from h = rw h refl

  -- Times below these bounds are answered by payloads that go on.
  abbrev pub Advances : Type 0
  Advances =
      (from until : ℕ) → from < 2 ^ 61 → (from < next from until) × (next from until < 2 ^ 62)

  -- In this range no test of the loop overflows.
  is_last_small :
      (t : ℕ)
      → (stepsize + 1) * 1000 < 2 ^ 31
      → t < 2 ^ 62
      → is_last stepsize timestampend t ≡ ltb timestampend (t + (stepsize + 1) * 1000 / 120)
  is_last_small t small h =
      let s = (stepsize + 1) * 1000 in
      let a : u32 s ≡ s = omega arith in
      let b : ltb s (2 ^ 31) ≡ true = ground arith in
      let c : (t + s / 120) % 2 ^ 64 ≡ t + s / 120 = omega arith in
      let d : ltb (t + s / 120) (2 ^ 63) ≡ true = ground arith in
      rw (a, b, int_of) (rw c (rw d refl))

  module _ (small : (stepsize + 1) * 1000 < 2 ^ 31) (low : timestampend < 2 ^ 61)
      (adv : Advances) where
    chunk_loop-finished_from :
        (n from : ℕ) → from ≤ timestampend → timestampend < from + n → (chunks n from).1 ≡ finished
    chunk_loop-finished_from zero from le h = absurd (omega arith)
    chunk_loop-finished_from (suc n) from le h =
        let until = chunk_end delta_t timestampend from in
        let t = next from until in
        let (on, fits) = adv from until (omega arith) in
        let test = is_last_small t small fits in
        elim (Bool-cases (is_last stepsize timestampend t)) [
          | inl e ↦ rw (last_round n from e) refl
          | inr e ↦
              let short = sym test ∙ e in
              rw (next_round n from e)
                (chunk_loop-finished_from n t (ground (arith, short)) (omega (arith, on)))
        ]

    chunks-Covered :
        (n from x : ℕ)
        → from < 2 ^ 61
        → (chunks n from).1 ≡ finished
        → from ≤ x
        → x + (stepsize + 1) * 1000 / 120 ≤ timestampend
        → Covered x (chunks n from).0
    chunks-Covered zero from x b e le high =
        absurd (running-ne-finished (sym (ap (λ r. r.1) (no_round from)) ∙ e))
    chunks-Covered (suc n) from x b e le high =
        let until = chunk_end delta_t timestampend from in
        let t = next from until in
        let (on, fits) = adv from until b in
        let test = is_last_small t small fits in
        elim (Bool-cases (is_last stepsize timestampend t)) [
          | inl l ↦
              let past = ltb→lt timestampend _ (sym test ∙ l) in
              rw (last_round n from l) (inl (le, ground arith, ground arith, omega arith))
          | inr l ↦
              let later = ap (λ r. r.1) (next_round n from l) in
              let short = sym test ∙ l in
              rw (next_round n from l) (elim (dec_lt x t) [
                | yes p ↦ inl (le, ground arith, ground arith, p)
                | no p ↦ inr (
                    chunks-Covered n t x (ground (arith, short)) (sym later ∙ e) (omega arith) high)
              ])
        ]

    -- For a step whose thousandfold, with one more sample, is below 2 ^ 31, and times and a
    -- length of a chunk below 2 ^ 61: if every chunk is answered by a payload whose end is
    -- behind the start of the chunk and below 2 ^ 62, and the format is known, then with
    -- more rounds than milliseconds to the end the client's loop finishes, and every time
    -- from the start on, but for a step and one sample before the end, lies in a chunk, one
    -- no longer than allowed and not behind the end, between its start and the end that the
    -- server gave.
    pub chunk_loop_complete :
        (n from : ℕ)
        → from < 2 ^ 61
        → delta_t < 2 ^ 61
        → timestampend ≤ from + n
        → ((chunks (suc n) from).1 ≡ finished)
          × ((x : ℕ)
              → from ≤ x
              → x + (stepsize + 1) * 1000 / 120 ≤ timestampend
              → Covered x (chunks (suc n) from).0)
    chunk_loop_complete n from b d h =
        let until = chunk_end delta_t timestampend from in
        let t = next from until in
        let (on, fits) = adv from until b in
        let test = is_last_small t small fits in
        let ends : (chunks (suc n) from).1 ≡ finished =
          elim (Bool-cases (is_last stepsize timestampend t)) [
            | inl e ↦ rw (last_round n from e) refl
            | inr e ↦
                let short = sym test ∙ e in
                rw (next_round n from e)
                  (chunk_loop-finished_from n t (ground (arith, short)) (omega (arith, on)))
          ] in
        (ends, λ x. chunks-Covered (suc n) from x b ends)
