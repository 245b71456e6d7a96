-- ===== src/Ftp/Archiver/Refine.antt =====
-- The archiver against a simple machine: a list of the seconds that are still to be archived.
use sparcs.Prelude.{
  ℕ, zero, suc, ◌+◌, ◌-◌, ◌/◌, ◌%◌, ◌^◌, ◌<◌, ◌≤◌, ◌≡◌, Bool, true, false, not, ◌&&◌, Option, none,
  some, List, [], ◌∷◌, ◌++◌, leb, ◌==◌, if◌then◌else◌, u32, arith, Bool-cases, inl, inr,
}
use sparcs.Phasor.Reformat.{SecBuffer}
use sparcs.Archiver.{Floats, Bpr}
use sparcs.Ftp.Archiver.{
  FtpArchiver, Second, second, pre_process_buffer, process_record, work_in_turn, archiver_turn,
}

-- A step of the simple machine, by whether Cassandra is there and whether there is memory: from the
-- seconds before, to those after, with those archived. Without Cassandra, seconds at the front may
-- be given up together; without memory, the first one is lost.
pub data Step {ℓ} {A : Type ℓ} : Bool → Bool → List A → List A → List A → Type ℓ where
  keep : {c m : Bool} {p : List A} → Step c m p p []
  archive : {s : A} {p : List A} → Step true true (s ∷ p) p (s ∷ [])
  lose : {s : A} {p : List A} → Step true false (s ∷ p) p []
  give_up : {m : Bool} (ss : List A) {p : List A} → Step false m (ss ++ p) p []

module _ (fl : Floats) where
  abbrev pub seconds_from : List ℕ → ℕ → ℕ → List (Second fl)
  seconds_from bytes k zero = []
  seconds_from bytes k (suc n) = second fl bytes k ∷ seconds_from bytes (suc k) n

  -- The seconds of a buffer that is a whole number of records.
  abbrev pub seconds_of : SecBuffer → List (Second fl)
  seconds_of b = if b.byte_len % 6312 == 0 then seconds_from b.bytes 0 (b.byte_len / 6312) else []

  abbrev pub queued : List SecBuffer → List (Second fl)
  queued [] = []
  queued (b ∷ q) = seconds_of b ++ queued q

  abbrev pub at_work : Option SecBuffer → Bpr → List (Second fl)
  at_work none bpr = []
  at_work (some b) bpr = seconds_from b.bytes bpr.next_record (bpr.num_records - bpr.next_record)

  -- What is still to be archived.
  abbrev pub pending : FtpArchiver → List (Second fl)
  pending a = at_work a.data_buf a.bpr ++ queued a.data_queue

-- The lengths of the queued buffers are words, and the record at work does not point behind the last.
abbrev pub AreWords : List SecBuffer → Type 0
AreWords [] = Unit
AreWords (b ∷ q) = (b.byte_len < 2 ^ 32) × AreWords q

abbrev pub IsInside : Option SecBuffer → Bpr → Type 0
IsInside none bpr = Unit
IsInside (some b) bpr = (bpr.next_record ≤ bpr.num_records) × (bpr.num_records < 2 ^ 32)

abbrev pub IsSound : FtpArchiver → Type 0
IsSound a = AreWords a.data_queue × IsInside a.data_buf a.bpr

module _ (fl : Floats) where
  pub process_record_done :
      (c m : Bool) (b : SecBuffer) (bpr : Bpr)
      → leb bpr.num_records bpr.next_record ≡ true
      → process_record fl c m b bpr ≡ (bpr, true, [])
  unfolding process_record
  process_record_done c m b bpr h = ground arith

  pub process_record_next :
      (c m : Bool) (b : SecBuffer) (bpr : Bpr)
      → leb bpr.num_records bpr.next_record ≡ false
      → process_record fl c m b bpr ≡ (
          if not c
          then (bpr, false, [])
          else if m
          then (
            record bpr { next_record = u32 (bpr.next_record + 1) },
            false,
            second fl b.bytes bpr.next_record ∷ [],
          )
          else (record bpr { next_record = u32 (bpr.next_record + 1) }, false, []))
  unfolding process_record
  process_record_next c m b bpr h = ground arith

  Simulates : Bool → Bool → Option SecBuffer → List SecBuffer → Bpr → Type 0
  Simulates c m w q bpr =
      let r = work_in_turn fl c m w q bpr in
      Step c m (at_work fl w bpr ++ queued fl q) (pending fl r.0) (r.1) × IsSound (r.0)

  seconds_from-zero : (bytes : List ℕ) (k n : ℕ) → n ≡ 0 → seconds_from fl bytes k n ≡ []
  seconds_from-zero bytes k n e = rw e

  seconds_from-next :
      (bytes : List ℕ) (k n k' n' : ℕ)
      → k' ≡ suc k
      → n ≡ suc n'
      → seconds_from fl bytes k n ≡ second fl bytes k ∷ seconds_from fl bytes k' n'
  seconds_from-next bytes k n k' n' e f = rw (e, f)

  done-Simulates :
      (c m : Bool) (b : SecBuffer) (q : List SecBuffer) (bpr : Bpr)
      → AreWords q
      → leb bpr.num_records bpr.next_record ≡ true
      → Simulates c m (some b) q bpr
  unfolding Simulates
  done-Simulates c m b q bpr a h =
      let e = process_record_done c m b bpr h in
      let n : bpr.num_records - bpr.next_record ≡ 0 = ground arith in
      let z = seconds_from-zero b.bytes bpr.next_record (bpr.num_records - bpr.next_record) n in
      rw (e, z) (keep, (a, tt))

  pub at_work-advance :
      (b : SecBuffer) (bpr : Bpr)
      → IsInside (some b) bpr
      → leb bpr.num_records bpr.next_record ≡ false
      → (at_work fl (some b) bpr
          ≡ second fl b.bytes bpr.next_record
            ∷ at_work fl (some b) (record bpr { next_record = u32 (bpr.next_record + 1) }))
        × IsInside (some b) (record bpr { next_record = u32 (bpr.next_record + 1) })
  at_work-advance b bpr (lo, hi) h =
      let lt : bpr.next_record < bpr.num_records = ground arith in
      let u : u32 (bpr.next_record + 1) ≡ suc bpr.next_record = omega arith in
      (
        seconds_from-next b.bytes bpr.next_record (bpr.num_records - bpr.next_record)
            (u32 (bpr.next_record + 1)) (bpr.num_records - u32 (bpr.next_record + 1)) u
            (omega arith),
        (omega arith, hi),
      )

  next-Simulates :
      (c m : Bool) (b : SecBuffer) (q : List SecBuffer) (bpr : Bpr)
      → AreWords q
      → IsInside (some b) bpr
      → leb bpr.num_records bpr.next_record ≡ false
      → Simulates c m (some b) q bpr
  unfolding Simulates
  next-Simulates false m b q bpr a i h =
      let e = process_record_next false m b bpr h in rw e (keep, (a, i))
  next-Simulates true true b q bpr a i h =
      let e = process_record_next true true b bpr h in
      let (z, inside) = at_work-advance b bpr i h in rw (e, z) (archive, (a, inside))
  next-Simulates true false b q bpr a i h =
      let e = process_record_next true false b bpr h in
      let (z, inside) = at_work-advance b bpr i h in rw (e, z) (lose, (a, inside))

  -- The next buffer of the queue.
  pub pre_process_refused :
      (b : SecBuffer) (bpr : Bpr) (c : Bool)
      → ((b.byte_len % 6312 == 0) && c) ≡ false
      → pre_process_buffer c b bpr ≡ (record bpr { num_records = 2 ^ 32 - 1 }, false)
  unfolding pre_process_buffer
  pre_process_refused b bpr c h = ground arith

  pub pre_process_accepted :
      (b : SecBuffer) (bpr : Bpr)
      → (b.byte_len % 6312 == 0) ≡ true
      → pre_process_buffer true b bpr ≡ (
        record { num_records = b.byte_len / 6312; next_record = 0; num_inserts_in_accum = 0 },
        true,
      )
  unfolding pre_process_buffer
  pre_process_accepted b bpr h = rw h

  whole-Simulates :
      (c m : Bool) (b : SecBuffer) (q : List SecBuffer) (bpr : Bpr)
      → b.byte_len < 2 ^ 32
      → AreWords q
      → (b.byte_len % 6312 == 0) ≡ true
      → Simulates c m none (b ∷ q) bpr
  unfolding Simulates
  whole-Simulates false m b q bpr l a whole =
      let e = pre_process_refused b bpr false (ground arith) in
      rw e (give_up (seconds_of fl b), (a, tt))
  whole-Simulates true m b q bpr l a whole =
      let e = pre_process_accepted b bpr whole in
      let n : b.byte_len / 6312 - 0 ≡ b.byte_len / 6312 = omega arith in
      rw (e, whole, n) (keep, (a, (omega arith, omega arith)))

  queue-Simulates :
      (c m : Bool) (b : SecBuffer) (q : List SecBuffer) (bpr : Bpr)
      → AreWords (b ∷ q)
      → Simulates c m none (b ∷ q) bpr
  unfolding Simulates
  queue-Simulates c m b q bpr (l, a) = elim (Bool-cases (b.byte_len % 6312 == 0)) [
    | inr part ↦ let e = pre_process_refused b bpr c (ground arith) in rw (e, part) (keep, (a, tt))
    | inl whole ↦ whole-Simulates c m b q bpr l a whole
  ]

  -- A turn in any state that is sound.
  work_in_turn-Simulates :
      (c m : Bool) (w : Option SecBuffer) (q : List SecBuffer) (bpr : Bpr)
      → AreWords q
      → IsInside w bpr
      → Simulates c m w q bpr
  unfolding Simulates
  work_in_turn-Simulates c m none [] bpr a i = (keep, (tt, tt))
  work_in_turn-Simulates c m none (b ∷ q) bpr a i = queue-Simulates c m b q bpr a
  work_in_turn-Simulates c m (some b) q bpr a i =
      elim (Bool-cases (leb bpr.num_records bpr.next_record)) [
        | inl done ↦ done-Simulates c m b q bpr a done
        | inr more ↦ next-Simulates c m b q bpr a i more
      ]

  -- In a state whose queued lengths are words and whose record at work is not behind the
  -- last, each turn of the archiver is a step of a simple machine that holds the list of
  -- seconds still to be archived, and it leaves such a state: it keeps the list and archives
  -- nothing, or archives the first second, or, without memory, loses the first one, or,
  -- without Cassandra, gives up seconds at the front.
  pub archiver_turn-Step :
      (c m : Bool) (a : FtpArchiver)
      → IsSound a
      → let r = archiver_turn fl c m a in
        Step c m (pending fl a) (pending fl r.0) (r.1) × IsSound (r.0)
  unfolding archiver_turn Simulates
  archiver_turn-Step c m a (words, inside) =
      work_in_turn-Simulates c m a.data_buf a.data_queue a.bpr words inside
