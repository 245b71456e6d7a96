-- ===== src/Archiver.antt =====
-- The Cassandra archiver of the synchrophasor gateway (serviceDataArchiver): the queue of offered
-- buffers, the thread's loop, and the decoding of a one-second buffer.
-- Every counter of the service is updated by `*cnt++`, which moves the local pointer and leaves
-- the counter as it was, so the statistics are no part of the state. `numInsertsInAccum;` is a
-- statement without effect, so the branch that reports insert times is never taken. Reads beyond
-- a buffer find 0 here. The database driver, `malloc` and the protobuf encoder are outside:
-- whether Cassandra is enabled and connected, and whether `malloc` succeeds, are arguments, and
-- what is handed to `cassandraDataArchive` is the result.
pub mod Queue
pub mod Decode
pub mod Loop
mod Tests
use sparcs.Prelude.{
  ℕ, zero, suc, ◌+◌, ◌-◌, ◌*◌, ◌/◌, ◌^◌, Bool, true, false, Option, none, some, List, [], ◌∷◌, ◌++◌,
  length, leb, ◌==◌, if◌then◌else◌, get_or, be32, u32,
}
use sparcs.Phasor.Reformat.{SecBuffer, secblk_len_bytes}

pub data Offer : Type 0 where
  buffer_accepted buffer_released buffer_refused : Offer

-- BUFFER_PROCESSING_RECORD. `numRecords` is an `int` that is compared with an unsigned number:
-- -1 is the word 2 ^ 32 - 1.
pub record Bpr : Type 0 where
  pub num_records : ℕ
  pub next_record : ℕ
  pub num_inserts_in_accum : ℕ

-- `dataQueue`, the buffer at work (`processingBuffer` with `dataBuf`), and `bpr`.
pub record Archiver : Type 0 where
  pub data_queue : List SecBuffer
  pub data_buf : Option SecBuffer
  pub bpr : Bpr

abbrev pub data_queue_len : ℕ
data_queue_len = 16

-- `switch (DATA_QUEUE_LEN - dataQueue.size())`
unfoldable pub data_buffer_offer : SecBuffer → Archiver → Archiver × Offer
data_buffer_offer b a =
    if length a.data_queue == data_queue_len
    then (a, buffer_refused)
    else (record a { data_queue = a.data_queue ++ b ∷ [] }, buffer_accepted)

-- `__bswap_32` of the `w`-th word of the buffer on a little-endian host.
unfoldable pub swapped_word : List ℕ → ℕ → ℕ
swapped_word bytes w =
    be32 (get_or bytes (4 * w) 0) (get_or bytes (4 * w + 1) 0) (get_or bytes (4 * w + 2) 0)
      (get_or bytes (4 * w + 3) 0)

-- The float operations of the decoder: the value of a bit pattern, `a * (180 / pi)`,
-- `a * (180 / pi) - b` and `fmod(a, 360.)`, each rounded to `float`.
pub record Floats : Type 1 where
  pub Float : Type 0
  pub of_bits : ℕ → Float
  pub zero_float : Float
  pub to_degrees : Float → Float
  pub to_degrees_from : Float → Float → Float
  pub fmod_360 : Float → Float

module _ (fl : Floats) where
  open fl use {Float, of_bits, zero_float, to_degrees, to_degrees_from, fmod_360}

  -- `syncOutput`
  pub record Sample : Type 0 where
    pub lockstate : ℕ
    pub l1mag : Float
    pub l1angle : Float
    pub l2mag : Float
    pub l2angle : Float
    pub l3mag : Float
    pub l3angle : Float
    pub c1mag : Float
    pub c1angle : Float
    pub c2mag : Float
    pub c2angle : Float
    pub c3mag : Float
    pub c3angle : Float

  -- One turn of the loop over the samples, at word `w`.
  unfoldable pub read_sample : List ℕ → ℕ → Sample
  unfolding swapped_word
  read_sample bytes w =
      let at = λ (k : ℕ). of_bits (swapped_word bytes (w + k)) in
      let l1ang = to_degrees (at 1) in
      record {
        lockstate = 0;
        l1mag = at 0;
        l1angle = fmod_360 zero_float;
        l2mag = at 2;
        l2angle = fmod_360 (to_degrees_from (at 3) l1ang);
        l3mag = at 4;
        l3angle = fmod_360 (to_degrees_from (at 5) l1ang);
        c1mag = at 6;
        c1angle = fmod_360 (to_degrees_from (at 7) l1ang);
        c2mag = at 8;
        c2angle = fmod_360 (to_degrees_from (at 9) l1ang);
        c3mag = at 10;
        c3angle = fmod_360 (to_degrees_from (at 11) l1ang);
      }

  -- Twelve words are read and three skipped.
  unfoldable pub read_samples : ℕ → ℕ → List ℕ → List Sample
  unfolding read_sample
  read_samples zero w bytes = []
  read_samples (suc n) w bytes = read_sample bytes w ∷ read_samples n (w + 15) bytes

  -- What `cassandraDataArchive` is given: its keys, and the content of the message.
  pub record Archived : Type 0 where
    pub timestamp_msec : ℕ
    pub day : ℕ
    pub timestamp : ℕ
    pub samples : List Sample

  -- The time is read at word 8 + 40. The samples begin 45 words before the word behind the next.
  unfoldable pub decode : List ℕ → Archived
  unfolding read_samples
  decode bytes =
      let epoch_time = swapped_word bytes 48 in
      record {
        timestamp_msec = epoch_time * 1000;
        day = epoch_time / 86400;
        timestamp = epoch_time;
        samples = read_samples 120 (50 - 45) bytes;
      }

  -- The new record, whether the buffer is done, and what was archived.
  unfoldable pub process_data : Bool → Bool → SecBuffer → Bpr → Bpr × Bool × Option Archived
  process_data cassandra memory b bpr =
      let counted = record bpr { next_record = u32 (bpr.next_record + 1) } in
      if leb bpr.num_records bpr.next_record
      then (bpr, true, none)
      else if cassandra
      then if memory then (counted, false, some (decode b.bytes)) else (counted, true, none)
      else (counted, false, none)

  -- The `int` that is returned is 1 for `true` and -1 for `false`.
  unfoldable pub pre_process_data : SecBuffer → Bpr → Bpr × Bool
  pre_process_data b bpr =
      if b.byte_len == secblk_len_bytes * 120 + 4
      then (record { num_records = 1; next_record = 0; num_inserts_in_accum = 0 }, true)
      else (record bpr { num_records = 2 ^ 32 - 1 }, false)

  abbrev pub archived_list : Option Archived → List Archived
  archived_list none = []
  archived_list (some x) = x ∷ []

  -- The buffer at work, if there is one; otherwise the next of the queue.
  unfoldable pub work_on :
      Bool → Bool → Option SecBuffer → List SecBuffer → Archiver → Archiver × List Archived
  unfolding process_data pre_process_data
  work_on cassandra memory (some b) q a =
      let (bpr', complete, out) = process_data cassandra memory b a.bpr in
      (record a { data_buf = if complete then none else some b; bpr = bpr' }, archived_list out)
  work_on cassandra memory none [] a = (a, [])
  work_on cassandra memory none (b ∷ q) a =
      let (bpr', good) = pre_process_data b a.bpr in
      (record a { data_queue = q; data_buf = if good then some b else none; bpr = bpr' }, [])

  -- One turn of the `while` loop, without commands and waiting.
  unfoldable pub loop_step : Bool → Bool → Archiver → Archiver × List Archived
  unfolding work_on
  loop_step cassandra memory a = work_on cassandra memory a.data_buf a.data_queue a
