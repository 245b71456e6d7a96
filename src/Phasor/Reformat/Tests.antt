-- ===== src/Phasor/Reformat/Tests.antt =====
-- Seconds of data events through the reformatter.
use sparcs.Prelude.{
  ℕ, zero, suc, ◌+◌, ◌-◌, ◌*◌, ◌≤◌, ◌≡◌, refl, List, [], ◌∷◌, ◌++◌, arith, length, replicate, true,
  false, le_bytes, map, if◌then◌else◌, ◌==◌, u16,
}
use mathlib.Core.List.{flatten}
use sparcs.Phasor.Buffer.{Buffer, complete_msg}
use sparcs.Phasor.Reformat.{Reformat, new_reformat, sync_to_sec, fill_buffer, block_of, event_of}
use sparcs.Phasor.Reformat.Counted.{AllBehind, first_in, Ended, feed-Ended}
use sparcs.Phasor.Reformat.Fill.{Event, feed, saved, first_of_next, second_posted}

-- A frame of 74 bytes.
abbrev frame : List ℕ
frame = 0xaa ∷ 0x01 ∷ 0 ∷ 74 ∷ 0 ∷ 5 ∷ 1 ∷ 2 ∷ 3 ∷ 4 ∷ (replicate 6 0 ++ replicate 58 9)

abbrev message : Buffer
message = record {
  buffer = frame;
  max_buffer_bytes = 1024;
  valid_buffer_bytes = 74;
  buf_state = complete_msg;
  msg_len_bytes = 74;
  msg_type = 0;
  msg_counter = 1;
}

state-new_reformat : new_reformat.current_state ≡ sync_to_sec
unfolding new_reformat
state-new_reformat = refl

started-new_reformat : new_reformat.sync_started ≡ false
unfolding new_reformat
started-new_reformat = refl

-- A saved event has 78 bytes.
whole : 64 ≤ length (event_of message)
unfolding event_of
whole = omega arith

-- The first sample of second 101 is saved already.
abbrev filling : Reformat
filling = record new_reformat {
  current_state = fill_buffer;
  sync_started = true;
  sample_cnt_valid = true;
  sample_cnt = 10;
  current_sample_cnt = 1;
  present_sec = 101;
  c37_event_buf = event_of message ∷ [];
}

abbrev two_events : List Event
two_events =
    record { frac_sec = 100; sec = 101; frame = message }
    ∷ record { frac_sec = 200; sec = 101; frame = message }
    ∷ []

-- Three events of ten samples: 420 bytes of the 604 are not written.
second_posted_example :
    let events = filling.c37_event_buf ++ saved two_events in
    let q = feed (two_events ++ first_of_next 101 message ∷ []) filling in
    let bytes = le_bytes 604 ++ flatten (map block_of events) in
    (q.1 ≡ record { byte_len = 604; bytes = bytes } ∷ [])
    × (length bytes + 60 * (10 - length events) ≡ 604)
    × (q.0.c37_event_buf ≡ event_of message ∷ [])
    × (q.0.present_sec ≡ 102)
    × (q.0.current_sample_cnt ≡ 1)
    × (q.0.current_state ≡ fill_buffer)
    × (q.0.missing_c37_events
        ≡ filling.missing_c37_events + (if u16 (1 + length two_events) == 10 then 0 else 1))
second_posted_example =
    second_posted 101 two_events message filling refl refl (omega arith)
      ((refl, (λ e. omega arith), refl), ((refl, (λ e. omega arith), refl), tt)) (omega arith) refl
      (omega arith) (whole, (whole, (whole, tt)))

abbrev nine_events : List Event
nine_events = replicate 9 (record { frac_sec = 100; sec = 100; frame = message })

behind_first :
    (n : ℕ) → AllBehind (replicate n (record { frac_sec = 100; sec = 100; frame = message }))
behind_first zero = tt
behind_first (suc n) = (((λ e. omega arith), refl), behind_first n)

feed-Ended_example :
    let q = feed (first_in 100 message ∷ (nine_events ++ first_in 103 message ∷ [])) new_reformat in
    Ended 100 10 new_reformat.sync_to_sec_aborts message q.0 × (q.1 ≡ [])
feed-Ended_example =
    feed-Ended 100 103 message message nine_events new_reformat state-new_reformat
      started-new_reformat refl (behind_first 9) refl (omega arith) (omega arith)
