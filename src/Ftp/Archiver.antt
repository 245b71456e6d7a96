-- ===== src/Ftp/Archiver.antt =====
-- The Cassandra archiver over FTP: ftp/serviceDataArchiver/serviceDataArchiver.cpp, with the records
-- of ftp/uPMUgateway/uPMUparticulars.h. A buffer holds records of one second, 6312 bytes each. The
-- processing record, the samples and the operations on `float` are those of the other archiver, in
-- `Archiver`. Whether Cassandra is enabled and connected in a turn, and whether `malloc` succeeds,
-- are arguments; what is handed to `cassandraDataArchive` is the result.
pub mod Refine
pub mod Drained
mod Tests
use sparcs.Prelude.{
  ℕ, zero, suc, ◌+◌, ◌-◌, ◌*◌, ◌/◌, ◌%◌, ◌^◌, Bool, true, false, not, Option, none, some, List, [],
  ◌∷◌, ◌++◌, length, leb, ◌==◌, if◌then◌else◌, get_or, u32,
}
use sparcs.Prelude.Ints.{ℤ, pos, negsuc, quot}
use sparcs.Phasor.Reformat.{SecBuffer}
use sparcs.Archiver.{Floats, Sample, Bpr}
use sparcs.Ftp.FileTime.{BrokenTime, mk_gmtime, int_of}
use sparcs.Ftp.Swap.{le_word}

-- `dataQueue`, the buffer at work, and `bpr`.
pub record FtpArchiver : Type 0 where
  pub data_queue : List SecBuffer
  pub data_buf : Option SecBuffer
  pub bpr : Bpr

abbrev pub upmu_1sec_buf_len : ℕ
upmu_1sec_buf_len = 6312

-- The word at an address.
abbrev pub word_at : List ℕ → ℕ → ℕ
word_at bytes p =
    le_word (get_or bytes p 0) (get_or bytes (p + 1) 0) (get_or bytes (p + 2) 0)
      (get_or bytes (p + 3) 0)

-- The conversion of a `time_t` to `uint64_t`.
abbrev pub to_u64 : ℤ → ℕ
to_u64 (pos n) = n % 2 ^ 64
to_u64 (negsuc n) = 2 ^ 64 - 1 - n % 2 ^ 64

-- The time of the record at `p`: six words behind the sample rate.
unfoldable pub section_time : List ℕ → ℕ → ℤ
section_time bytes p = mk_gmtime record {
  tm_year = int_of (u32 (word_at bytes (p + 4) + 2 ^ 32 - 1900));
  tm_mon = int_of (u32 (word_at bytes (p + 8) + 2 ^ 32 - 1));
  tm_mday = word_at bytes (p + 12);
  tm_hour = word_at bytes (p + 16);
  tm_min = word_at bytes (p + 20);
  tm_sec = word_at bytes (p + 24);
}

-- `preProcessData`; the `int` that is returned is 1 for `true` and -1 for `false`.
unfoldable pub pre_process_buffer : Bool → SecBuffer → Bpr → Bpr × Bool
pre_process_buffer cassandra b bpr =
    if not (b.byte_len % upmu_1sec_buf_len == 0)
    then (record bpr { num_records = 2 ^ 32 - 1 }, false)
    else if not cassandra
    then (record bpr { num_records = 2 ^ 32 - 1 }, false)
    else (
      record {
        num_records = b.byte_len / upmu_1sec_buf_len;
        next_record = 0;
        num_inserts_in_accum = 0;
      },
      true,
    )

module _ (fl : Floats) where
  open fl use {Float, of_bits, fmod_360}

  -- The sample `i` of the record at `p`: its lock state, and an angle and a magnitude in each of six
  -- arrays of 120 points.
  unfoldable pub read_sync_output : List ℕ → ℕ → ℕ → Sample fl
  read_sync_output bytes p i =
      let angle = λ (k : ℕ). fmod_360 (of_bits (word_at bytes (p + 508 + 960 * k + 8 * i))) in
      let mag = λ (k : ℕ). of_bits (word_at bytes (p + 508 + 960 * k + 8 * i + 4)) in
      record {
        lockstate = word_at bytes (p + 28 + 4 * i);
        l1mag = mag 0;
        l1angle = angle 0;
        l2mag = mag 1;
        l2angle = angle 1;
        l3mag = mag 2;
        l3angle = angle 2;
        c1mag = mag 3;
        c1angle = angle 3;
        c2mag = mag 4;
        c2angle = angle 4;
        c3mag = mag 5;
        c3angle = angle 5;
      }

  -- The samples from `i` on.
  unfoldable pub read_sync_outputs : ℕ → List ℕ → ℕ → ℕ → List (Sample fl)
  read_sync_outputs zero bytes p i = []
  read_sync_outputs (suc n) bytes p i =
      read_sync_output bytes p i ∷ read_sync_outputs n bytes p (suc i)

  -- What `cassandraDataArchive` is given: its keys, and the content of the message.
  pub record Second : Type 0 where
    pub timestamp_msec : ℕ
    pub day : ℕ
    pub timestamp : ℤ
    pub sample_interval : Float
    pub samples : List (Sample fl)

  -- The record `k` of a buffer.
  unfoldable pub second : List ℕ → ℕ → Second
  second bytes k =
      let p = k * upmu_1sec_buf_len in
      let epoch_time = section_time bytes p in
      record {
        timestamp_msec = to_u64 epoch_time * 1000 % 2 ^ 64;
        day = to_u64 (quot epoch_time 86400);
        timestamp = epoch_time;
        sample_interval = of_bits (word_at bytes p);
        samples = read_sync_outputs 120 bytes p 0;
      }

  -- `processData`: the new record, whether the buffer is done, and what was archived.
  unfoldable pub process_record : Bool → Bool → SecBuffer → Bpr → Bpr × Bool × List Second
  process_record cassandra memory b bpr =
      let counted = record bpr { next_record = u32 (bpr.next_record + 1) } in
      if leb bpr.num_records bpr.next_record
      then (bpr, true, [])
      else if not cassandra
      then (bpr, false, [])
      else if memory
      then (counted, false, second b.bytes bpr.next_record ∷ [])
      else (counted, false, [])

  -- The buffer at work, if there is one; otherwise the next of the queue.
  abbrev pub work_in_turn :
      Bool → Bool → Option SecBuffer → List SecBuffer → Bpr → FtpArchiver × List Second
  work_in_turn cassandra memory (some b) q bpr =
      let (bpr', complete, out) = process_record cassandra memory b bpr in
      (record { data_queue = q; data_buf = if complete then none else some b; bpr = bpr' }, out)
  work_in_turn cassandra memory none [] bpr =
      (record { data_queue = []; data_buf = none; bpr = bpr }, [])
  work_in_turn cassandra memory none (b ∷ q) bpr =
      let (bpr', good) = pre_process_buffer cassandra b bpr in
      (record { data_queue = q; data_buf = if good then some b else none; bpr = bpr' }, [])

  -- One turn of the `while` loop, without commands and waiting.
  unfoldable pub archiver_turn : Bool → Bool → FtpArchiver → FtpArchiver × List Second
  archiver_turn cassandra memory a = work_in_turn cassandra memory a.data_buf a.data_queue a.bpr
