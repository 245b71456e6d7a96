-- ===== src/Archiver/Tests.antt =====
-- Buffers through the archiver.
use sparcs.Prelude.{
  ℕ, ◌%◌, ◌+◌, ◌*◌, ◌/◌, ◌-◌, ◌≡◌, ◌<◌, refl, List, [], ◌∷◌, ◌++◌, some, none, replicate, get_or,
  get_elem?, true, be32, zero, suc,
}
use sparcs.Phasor.Reformat.{SecBuffer}
use sparcs.Phasor.Reformat.Block.{AllLong}
use sparcs.Archiver.{Archiver, Floats, decode}
use sparcs.Archiver.Loop.{turns, turns_for_all, outcomes, loop_archives}
use sparcs.Archiver.Decode.{soc_word, posted_bytes, sample_of, decode-posted}

-- Bit patterns in place of floats.
abbrev words : Floats
words = record {
  Float = ℕ;
  of_bits = λ w. w;
  zero_float = 0;
  to_degrees = λ a. a * 57;
  to_degrees_from = λ a b. a * 57 - b;
  fmod_360 = λ a. a % 360;
}

abbrev short_buffer : SecBuffer
short_buffer = record { byte_len = 604; bytes = replicate 604 1 }

abbrev full_buffer : SecBuffer
full_buffer = record { byte_len = 7204; bytes = replicate 7204 1 }

abbrev idle : List SecBuffer → Archiver
idle q = record {
  data_queue = q;
  data_buf = none;
  bpr = record { num_records = 0; next_record = 0; num_inserts_in_accum = 0 };
}

loop_archives_example :
    let q = short_buffer ∷ full_buffer ∷ full_buffer ∷ [] in
    let r = turns words true true (turns_for_all words true true q) (idle q) in
    (r.0.data_queue ≡ []) × (r.0.data_buf ≡ none) × (r.1 ≡ outcomes words true true q)
loop_archives_example =
    loop_archives words true true (short_buffer ∷ full_buffer ∷ full_buffer ∷ [])
      (idle (short_buffer ∷ full_buffer ∷ full_buffer ∷ [])) refl refl

abbrev frame : List ℕ
frame = 0xaa ∷ 0x01 ∷ 0 ∷ 74 ∷ 0 ∷ 5 ∷ 1 ∷ 2 ∷ 3 ∷ 4 ∷ (replicate 6 0 ++ replicate 58 9)

same-AllLong : (n : ℕ) → AllLong (replicate n frame)
same-AllLong zero = tt
same-AllLong (suc n) = (refl, same-AllLong n)

abbrev one_second : List (List ℕ)
one_second = replicate 120 frame

decode-posted_example :
    let d = decode words (posted_bytes 7204 one_second) in
    (d.timestamp ≡ soc_word (get_or one_second 3 []))
    × (d.timestamp_msec ≡ soc_word (get_or one_second 3 []) * 1000)
    × (d.day ≡ soc_word (get_or one_second 3 []) / 86400)
    × ((i : ℕ)
        → i + 1 < 120
        → get_elem? d.samples i
          ≡ some (
              sample_of words
                (get_or one_second i [])
                (be32 60 0 (get_or (get_or one_second (i + 1) []) 9 0) 0)))
decode-posted_example = decode-posted words 7204 one_second (same-AllLong 120) refl
