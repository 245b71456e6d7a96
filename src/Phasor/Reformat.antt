-- ===== src/Phasor/Reformat.antt =====
-- Assembly of one-second buffers: C37_Reformat.h and C37_Reformat.cpp, with the sizes of
-- C37_inputDesc.h and oneSecDataFormat.h. What is handed to `postProcessUPMUdata` is returned
-- beside the new state. The counters are 64-bit and taken as unbounded; `uint16_t` and `uint32_t`
-- members wrap. A write to `fracSecValues` beyond its 512 cells, and the four bytes that
-- `saveC37event` writes behind its allocation, change no object of the model. Neither do the blocks
-- that `processEventBuffer` writes behind its allocation where there are more events than samples;
-- where there are fewer, the end of the allocation is not written, and is not in the bytes.
pub mod Sync
pub mod Fill
pub mod Block
pub mod Counted
mod Tests
use sparcs.Prelude.{
  ℕ, zero, suc, ◌+◌, ◌*◌, ◌%◌, Bool, true, false, not, ◌&&◌, Option, none, some, List, [], ◌∷◌,
  ◌++◌, map, ltb, ◌==◌, if◌then◌else◌, get_or, take, drop, set, replicate, u16, u32, le_bytes,
}
use mathlib.Core.List.{flatten}
use sparcs.Phasor.Buffer.{Buffer}

pub data State : Type 0 where
  sync_to_sec fill_buffer : State

pub record Reformat : Type 0 where
  pub current_state : State
  pub sync_started : Bool
  pub sample_cnt_valid : Bool
  pub sample_cnt : ℕ
  pub current_sample_cnt : ℕ
  pub previous_sec : ℕ
  pub present_sec : ℕ
  pub frac_sec_values : List ℕ
  pub c37_event_buf : List (List ℕ)
  pub non_std_c37_events : ℕ
  pub sync_to_sec_aborts : ℕ
  pub missing_c37_events : ℕ
  pub extended_missing_c37_events : ℕ
  pub c37_event_sequence_failures : ℕ
  pub processed_c37_1sec_buffers : ℕ

abbrev pub c37_datum_typical_len : ℕ
c37_datum_typical_len = 74

abbrev pub secblk_len_bytes : ℕ
secblk_len_bytes = 60

-- The member initialisers. `fracSecValues` has none; zeros stand for its cells.
unfoldable pub new_reformat : Reformat
new_reformat = record {
  current_state = sync_to_sec;
  sync_started = false;
  sample_cnt_valid = false;
  sample_cnt = 0;
  current_sample_cnt = 0;
  previous_sec = 0;
  present_sec = 0;
  frac_sec_values = replicate 512 0;
  c37_event_buf = [];
  non_std_c37_events = 0;
  sync_to_sec_aborts = 0;
  missing_c37_events = 0;
  extended_missing_c37_events = 0;
  c37_event_sequence_failures = 0;
  processed_c37_1sec_buffers = 0;
}

-- A buffer offered to the other services: the announced length, and the bytes written to it.
pub record SecBuffer : Type 0 where
  pub byte_len : ℕ
  pub bytes : List ℕ

-- `tBuf` of `saveC37event`: the length as a word, then the frame.
unfoldable pub event_of : Buffer → List ℕ
event_of b = le_bytes b.msg_len_bytes ++ take b.msg_len_bytes b.buffer

unfoldable pub save_c37_event : Buffer → Reformat → Reformat
unfolding event_of
save_c37_event b r = record r { c37_event_buf = r.c37_event_buf ++ event_of b ∷ [] }

-- `n` bytes from index `i`
abbrev pub slice : ℕ → ℕ → List ℕ → List ℕ
slice i n xs = take n (drop i xs)

-- One turn of the loop in `processEventBuffer`. `pin` points at the saved event, not behind its
-- length word.
unfoldable pub block_of : List ℕ → List ℕ
block_of pin =
    secblk_len_bytes
    ∷ 0
    ∷ get_or pin 13 0
    ∷ 0
    ∷ (slice 6 4 pin ++ (slice 10 4 pin ++ slice 16 48 pin))

unfoldable pub process_event_buffer : Reformat → Reformat × SecBuffer
unfolding block_of
process_event_buffer r =
    let len = secblk_len_bytes * r.sample_cnt + 4 in
    (
      record r { c37_event_buf = [] },
      record { byte_len = len; bytes = le_bytes len ++ flatten (map block_of r.c37_event_buf) },
    )

-- `if(!syncStarted)`: wait for the first sample of a second.
unfoldable pub sync_start : ℕ → ℕ → Reformat → Reformat
sync_start frac_sec sec r =
    if frac_sec == 0
    then record r {
      sync_started = true;
      frac_sec_values = set r.frac_sec_values 0 0;
      present_sec = sec;
      sample_cnt = 1;
    }
    else r

abbrev pub abort_sync : Reformat → Reformat
abort_sync r = record r {
  sync_started = false;
  sample_cnt = 0;
  sync_to_sec_aborts = r.sync_to_sec_aborts + 1;
}

-- The next second has begun, and the sample count passed the test.
unfoldable pub enter_fill : Buffer → ℕ → Reformat → Reformat
unfolding save_c37_event
enter_fill b sec r = record (save_c37_event b (record r { c37_event_buf = [] })) {
  sample_cnt_valid = true;
  current_state = fill_buffer;
  current_sample_cnt = 1;
  previous_sec = r.present_sec;
  present_sec = sec;
}

-- The `else` branch of the synchronisation. Its first test, `(sec = presentSec + 1)`, assigns:
-- from there on `sec` is the next second, whatever the frame said, and the test asks whether that
-- is not 0.
unfoldable pub sync_count : Buffer → ℕ → ℕ → Reformat → Reformat
unfolding enter_fill
sync_count b frac_sec sec r =
    let sec' = u32 (r.present_sec + 1) in
    if not (sec' == 0) && (frac_sec == 0)
    then if r.sample_cnt % 10 == 0 then enter_fill b sec' r else abort_sync r
    else if ltb sec' r.present_sec
    then abort_sync r
    else record r {
      frac_sec_values = set r.frac_sec_values r.sample_cnt frac_sec;
      sample_cnt = u16 (r.sample_cnt + 1);
    }

-- The search for the sample's place in its second, from index `i` with `n` cells to go.
unfoldable pub find_frac_sec : ℕ → ℕ → ℕ → List ℕ → Option ℕ
find_frac_sec zero i frac_sec values = none
find_frac_sec (suc n) i frac_sec values =
    let rest = find_frac_sec n (i + 1) frac_sec values in
    if frac_sec == get_or values i 0 then some i else rest

-- The last branch of `case fillBuffer`: samples were missed.
unfoldable pub fill_confused : ℕ → ℕ → Reformat → Reformat
unfolding find_frac_sec
fill_confused frac_sec sec r =
    let r' = record r {
      extended_missing_c37_events = r.extended_missing_c37_events + 1;
      previous_sec = r.present_sec;
      present_sec = sec;
    } in
    elim (find_frac_sec r.sample_cnt 0 frac_sec r.frac_sec_values) [
      | some i ↦ record r' { current_sample_cnt = u16 (i + 1) }
      | none ↦ record r' {
        current_state = sync_to_sec;
        sync_started = false;
        sample_cnt = 0;
        c37_event_sequence_failures = r.c37_event_sequence_failures + 1;
      }
    ]

-- A full second has passed: post its buffer and begin the next.
unfoldable pub end_of_second : Buffer → ℕ → Reformat → Reformat × Option SecBuffer
unfolding save_c37_event process_event_buffer
end_of_second b sec r =
    let missed = if r.current_sample_cnt == r.sample_cnt then 0 else 1 in
    let (r', posted) = process_event_buffer (record r {
      missing_c37_events = r.missing_c37_events + missed;
      processed_c37_1sec_buffers = r.processed_c37_1sec_buffers + 1;
    }) in
    (
      record (save_c37_event b r') {
        current_sample_cnt = 1;
        previous_sec = r.present_sec;
        present_sec = sec;
      },
      some posted,
    )

-- `case fillBuffer`
unfoldable pub fill_step : Buffer → ℕ → ℕ → Reformat → Reformat × Option SecBuffer
unfolding save_c37_event end_of_second fill_confused
fill_step b frac_sec sec r =
    if (sec == r.present_sec) && not (frac_sec == 0)
    then (record (save_c37_event b r) { current_sample_cnt = u16 (r.current_sample_cnt + 1) }, none)
    else if (sec == u32 (r.present_sec + 1)) && (frac_sec == 0)
    then end_of_second b sec r
    else (fill_confused frac_sec sec r, none)

-- The `switch` over the state.
unfoldable pub step_in : State → Buffer → ℕ → ℕ → Reformat → Reformat × Option SecBuffer
unfolding sync_start sync_count fill_step
step_in sync_to_sec b frac_sec sec r =
    (if r.sync_started then sync_count b frac_sec sec r else sync_start frac_sec sec r, none)
step_in fill_buffer b frac_sec sec r = fill_step b frac_sec sec r

unfoldable pub process_c37_event : ℕ → ℕ → Buffer → Reformat → Reformat × Option SecBuffer
unfolding step_in
process_c37_event frac_sec sec b r =
    if b.msg_len_bytes == c37_datum_typical_len
    then step_in r.current_state b frac_sec sec r
    else (record r { non_std_c37_events = r.non_std_c37_events + 1 }, none)
