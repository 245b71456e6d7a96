-- ===== src/Archiver/Loop.antt =====
-- The archiver's loop on a queue of buffers: each is archived once or dropped, in order.
use sparcs.Prelude.{
  ℕ, zero, suc, ◌+◌, ◌≡◌, refl, ap, sym, List, [], ◌∷◌, ◌++◌, Bool, true, none, arith, ◌==◌,
  if◌then◌else◌,
}
use mathlib.Core.List.{append_assoc}
use sparcs.Phasor.Reformat.{SecBuffer}
use sparcs.Archiver.{Archiver, Bpr, Floats, Archived, decode, loop_step}

module _ (fl : Floats) (cassandra memory : Bool) where
  -- Several turns of the loop, and what they archive.
  unfoldable pub turns : ℕ → Archiver → Archiver × List (Archived fl)
  turns zero a = (a, [])
  turns (suc n) a =
      let (a', out) = loop_step fl cassandra memory a in
      let (last, more) = turns n a' in (last, out ++ more)

  pub turns-add :
      (m n : ℕ) (a : Archiver)
      → turns (m + n) a ≡ ((turns n (turns m a).0).0, (turns m a).1 ++ (turns n (turns m a).0).1)
  unfolding turns
  turns-add zero n a = ap (λ k. turns k a) {x = zero + n} {y = n} (omega arith)
  turns-add (suc m) n a =
      let e : suc m + n ≡ suc (m + n) = omega arith in
      let s = loop_step fl cassandra memory a in
      rw (e, turns-add m n s.0)
        (ap (λ l. ((turns n (turns m s.0).0).0, l)) (sym (append_assoc s.1 (turns m s.0).1 _)))

  abbrev pub is_full : SecBuffer → Bool
  is_full b = b.byte_len == 7204

  -- How many turns a buffer takes, and what becomes of it.
  abbrev pub turns_for : SecBuffer → ℕ
  turns_for b = if is_full b then (if cassandra then if memory then 3 else 2 else 3) else 1

  abbrev pub outcome : SecBuffer → List (Archived fl)
  outcome b =
      if is_full b
      then if cassandra then if memory then decode fl b.bytes ∷ [] else [] else []
      else []

  abbrev pub turns_for_all : List SecBuffer → ℕ
  turns_for_all [] = 0
  turns_for_all (b ∷ q) = turns_for b + turns_for_all q

  abbrev pub outcomes : List SecBuffer → List (Archived fl)
  outcomes [] = []
  outcomes (b ∷ q) = outcome b ++ outcomes q

-- One buffer, with the queue behind it.
one_buffer :
    (fl : Floats) (cassandra memory : Bool) (b : SecBuffer) (q : List SecBuffer) (bpr : Bpr)
    → let r =
        turns fl cassandra memory
          (turns_for fl cassandra memory b)
          (record { data_queue = b ∷ q; data_buf = none; bpr = bpr }) in
      (r.0.data_queue ≡ q) × (r.0.data_buf ≡ none) × (r.1 ≡ outcome fl cassandra memory b)
unfolding turns loop_step
one_buffer fl true true b q bpr = (ground arith, ground arith, ground arith)
one_buffer fl _ _ b q bpr = (ground arith, ground arith, ground arith)

-- From an idle state the archiver's loop empties its queue in the turns that the buffers take,
-- and is idle again: each buffer of full length is archived once, in order, if Cassandra is
-- connected and memory is there, and every other buffer is dropped.
pub loop_archives :
    (fl : Floats) (cassandra memory : Bool) (q : List SecBuffer) (a : Archiver)
    → a.data_queue ≡ q
    → a.data_buf ≡ none
    → let r = turns fl cassandra memory (turns_for_all fl cassandra memory q) a in
      (r.0.data_queue ≡ []) × (r.0.data_buf ≡ none) × (r.1 ≡ outcomes fl cassandra memory q)
loop_archives fl cassandra memory [] a e n = unfold turns in (e, n, refl)
loop_archives fl cassandra memory (b ∷ q) a e n =
    let start : a ≡ record { data_queue = b ∷ q; data_buf = none; bpr = a.bpr } =
      λ i. record { data_queue = e i; data_buf = n i; bpr = a.bpr } in
    let k = turns_for fl cassandra memory b in
    let one = rw (← start) at (one_buffer fl cassandra memory b q a.bpr) in
    let r = turns fl cassandra memory k a in
    let ih = loop_archives fl cassandra memory q r.0 one.0 one.1 in
    rw (turns-add fl cassandra memory k (turns_for_all fl cassandra memory q) a)
      (ih.0, ih.1, rw (one.2, ih.2))
