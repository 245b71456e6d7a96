-- ===== src/Ftp/Archiver/Tests.antt =====
-- A queue of two buffers, one of them of two records.
use sparcs.Prelude.{
  ℕ, ◌-◌, ◌*◌, ◌%◌, ◌≡◌, refl, List, [], ◌∷◌, ◌++◌, true, some, none, arith, le_bytes,
}
use sparcs.Prelude.Ints.{pos}
use sparcs.Phasor.Reformat.{SecBuffer}
use sparcs.Archiver.{Floats}
use sparcs.Ftp.FileTime.{mk_gmtime}
use sparcs.Ftp.Archiver.{FtpArchiver, section_time, archiver_turn}
use sparcs.Ftp.Archiver.Refine.{Step, pending, IsSound, archiver_turn-Step}
use sparcs.Ftp.Archiver.Drained.{archiver_turns, archiver_turns-pending}

-- Bit patterns in place of floats.
abbrev words : Floats
words = record {
  Float = ℕ;
  of_bits = λ w. w;
  zero_float = 0;
  to_degrees = λ a. a * 57;
  to_degrees_from = λ a b. a * 57 - b;
  fmod_360 = λ a. a % 360;
}

-- The first words of a record: the sample rate, and noon of the 29th of February 2016.
abbrev start_of_record : List ℕ
start_of_record =
    le_bytes 1090519040
    ++ le_bytes 2016
    ++ le_bytes 2
    ++ le_bytes 29
    ++ le_bytes 12
    ++ le_bytes 0
    ++ le_bytes 0

time_of_record : section_time start_of_record 0 ≡ pos 1456747200
unfolding section_time mk_gmtime
time_of_record = refl

abbrev two_records : SecBuffer
two_records = record { byte_len = 12624; bytes = start_of_record }

abbrev odd_buffer : SecBuffer
odd_buffer = record { byte_len = 700; bytes = start_of_record }

abbrev waiting : FtpArchiver
waiting = record {
  data_queue = odd_buffer ∷ two_records ∷ [];
  data_buf = none;
  bpr = record { num_records = 0; next_record = 0; num_inserts_in_accum = 0 };
}

waiting-IsSound : IsSound waiting
waiting-IsSound = ((omega arith, (omega arith, tt)), tt)

abbrev in_work : FtpArchiver
in_work = record waiting {
  data_buf = some two_records;
  bpr = record { num_records = 2; next_record = 1; num_inserts_in_accum = 0 };
}

in_work-IsSound : IsSound in_work
in_work-IsSound = ((omega arith, (omega arith, tt)), (omega arith, omega arith))

archiver_turn-Step_example :
    let r = archiver_turn words true true in_work in
    Step true true (pending words in_work) (pending words r.0) r.1 × IsSound r.0
archiver_turn-Step_example = archiver_turn-Step words true true in_work in_work-IsSound

archiver_turns-pending_example :
    ((archiver_turns words 6 waiting).1 ≡ pending words waiting)
    × (pending words (archiver_turns words 6 waiting).0 ≡ [])
archiver_turns-pending_example =
    archiver_turns-pending words 6 waiting waiting-IsSound (omega arith)
