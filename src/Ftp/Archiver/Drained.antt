-- ===== src/Ftp/Archiver/Drained.antt =====
-- With Cassandra and memory there, everything is archived in turn.
use sparcs.Prelude.{
  ℕ, zero, suc, ◌+◌, ◌-◌, ◌/◌, ◌%◌, ◌<◌, ◌≤◌, ◌≡◌, refl, ap, sym, ◌∙◌, true, Option, none, some,
  List, [], ◌∷◌, ◌++◌, leb, ◌==◌, arith, Bool-cases, inl, inr,
}
use sparcs.Phasor.Reformat.{SecBuffer}
use sparcs.Archiver.{Floats, Bpr}
use sparcs.Ftp.Archiver.{FtpArchiver, Second, work_in_turn, archiver_turn}
use sparcs.Ftp.Archiver.Refine.{
  Step, keep, archive, pending, IsInside, IsSound, process_record_done, process_record_next,
  pre_process_refused, pre_process_accepted, archiver_turn-Step,
}

-- What is archived and what is pending then is what was pending.
Step-append {ℓ} : {A : Type ℓ} {p q o : List A} → Step true true p q o → o ++ q ≡ p
Step-append keep = refl
Step-append archive = refl

-- The turns that are left at most: one for each record, and two for each buffer.
abbrev pub turns_queued : List SecBuffer → ℕ
turns_queued [] = 0
turns_queued (b ∷ q) = suc (suc (b.byte_len / 6312)) + turns_queued q

abbrev pub turns_at_work : Option SecBuffer → Bpr → ℕ
turns_at_work none bpr = 0
turns_at_work (some b) bpr = suc (bpr.num_records - bpr.next_record)

abbrev pub turns_left : FtpArchiver → ℕ
turns_left a = turns_at_work a.data_buf a.bpr + turns_queued a.data_queue

module _ (fl : Floats) where
  Shrinks : Option SecBuffer → List SecBuffer → Bpr → Type 0
  Shrinks w q bpr =
      turns_left ((work_in_turn fl true true w q bpr).0) ≤ turns_at_work w bpr + turns_queued q - 1

  queue-Shrinks : (b : SecBuffer) (q : List SecBuffer) (bpr : Bpr) → Shrinks none (b ∷ q) bpr
  unfolding Shrinks
  queue-Shrinks b q bpr = elim (Bool-cases (b.byte_len % 6312 == 0)) [
    | inl whole ↦ let e = pre_process_accepted fl b bpr whole in rw e (omega arith)
    | inr part ↦ let e = pre_process_refused fl b bpr true (ground arith) in rw e (omega arith)
  ]

  work-Shrinks :
      (b : SecBuffer) (q : List SecBuffer) (bpr : Bpr)
      → IsInside (some b) bpr
      → Shrinks (some b) q bpr
  unfolding Shrinks
  work-Shrinks b q bpr (lo, hi) = elim (Bool-cases (leb bpr.num_records bpr.next_record)) [
    | inl done ↦ let e = process_record_done fl true true b bpr done in rw e (omega arith)
    | inr more ↦
        let e = process_record_next fl true true b bpr more in
        let lt : bpr.next_record < bpr.num_records = ground arith in rw e (omega arith)
  ]

  work_in_turn-Shrinks :
      (w : Option SecBuffer) (q : List SecBuffer) (bpr : Bpr) → IsInside w bpr → Shrinks w q bpr
  unfolding Shrinks
  work_in_turn-Shrinks none [] bpr i = omega arith
  work_in_turn-Shrinks none (b ∷ q) bpr i = queue-Shrinks b q bpr
  work_in_turn-Shrinks (some b) q bpr i = work-Shrinks b q bpr i

  turns_left-archiver_turn :
      (a : FtpArchiver)
      → IsSound a
      → turns_left ((archiver_turn fl true true a).0) ≤ turns_left a - 1
  unfolding archiver_turn Shrinks
  turns_left-archiver_turn a s = work_in_turn-Shrinks a.data_buf a.data_queue a.bpr s.1

  none_pending :
      (w : Option SecBuffer) (q : List SecBuffer) (bpr : Bpr)
      → turns_at_work w bpr + turns_queued q ≡ 0
      → pending fl (record { data_queue = q; data_buf = w; bpr = bpr }) ≡ []
  none_pending none [] bpr h = refl
  none_pending none (b ∷ q) bpr h = absurd (omega arith)
  none_pending (some b) q bpr h = absurd (omega arith)

  -- Several turns, and what they archive.
  unfoldable pub archiver_turns : ℕ → FtpArchiver → FtpArchiver × List (Second fl)
  archiver_turns zero a = (a, [])
  archiver_turns (suc n) a =
      let (a', out) = archiver_turn fl true true a in
      let (last, more) = archiver_turns n a' in (last, out ++ more)

  -- With Cassandra and memory there, in such a state: as many turns as there are records left
  -- and twice the buffers, or more, archive just the seconds that were to be archived, each
  -- once and in order, and leave none.
  pub archiver_turns-pending :
      (n : ℕ) (a : FtpArchiver)
      → IsSound a
      → turns_left a ≤ n
      → ((archiver_turns n a).1 ≡ pending fl a) × (pending fl ((archiver_turns n a).0) ≡ [])
  unfolding archiver_turns
  archiver_turns-pending zero a s h =
      let z = none_pending a.data_buf a.data_queue a.bpr (omega arith) in (sym z, z)
  archiver_turns-pending (suc n) a s h =
      let r = archiver_turn fl true true a in
      let (step, sound) = archiver_turn-Step fl true true a s in
      let less = turns_left-archiver_turn a s in
      let (out, idle) = archiver_turns-pending n (r.0) sound (omega arith) in
      (ap (λ l. r.1 ++ l) out ∙ Step-append step, idle)
