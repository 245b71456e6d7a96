-- ===== src/Phasor/Channel/Stream.antt =====
-- The stream of frames that the channel's read handler is meant to see, apart from any buffer:
-- how bytes part into frames, and what one frame does to the counters and the reformatter.
use sparcs.Prelude.{
  ℕ, ◌+◌, ◌≤◌, ◌<◌, ◌≡◌, refl, sym, List, [], ◌∷◌, ◌++◌, length, get_or, take, drop, arith, ◌==◌,
  if◌then◌else◌, Bool-cases, inl, inr, length-take, get_or-take, take-take_le,
}
use sparcs.Phasor.Buffer.{Buffer, unknown_msg, remove_msg_from_buffer}
use sparcs.Phasor.Buffer.Inv.{HasFrame, frame_size, frame_type}
use sparcs.Phasor.Reformat.{
  Reformat, SecBuffer, process_c37_event, State, sync_to_sec, fill_buffer, step_in,
}
use sparcs.Phasor.Cfg.{Platform}
use sparcs.Phasor.Channel.{Channel, on_message, frac_time, soc_time, posted_list}

-- `Frames xs fs rest`: the frames `fs` stand at the start of `xs`, each with room for its own header, and
-- `rest` does not begin with a whole frame.
pub data Frames : List ℕ → List (List ℕ) → List ℕ → Type 0 where
  done : {xs rest : List ℕ} → ¬ HasFrame xs → xs ≡ rest → Frames xs [] rest
  next :
      {xs rest : List ℕ} {fs : List (List ℕ)}
      → HasFrame xs
      → 4 ≤ frame_size xs
      → Frames (drop (frame_size xs) xs) fs rest
      → Frames xs (take (frame_size xs) xs ∷ fs) rest

-- What the messages of a channel change, but for the descriptors.
pub record Sinks : Type 0 where
  pub reformat : Reformat
  pub bytes_recv : ℕ
  pub c37events_recv : ℕ
  pub c37events_queued : ℕ

abbrev pub sinks : Channel → Sinks
sinks ch = record {
  reformat = ch.c37reformat;
  bytes_recv = ch.bytes_recv;
  c37events_recv = ch.c37events_recv;
  c37events_queued = ch.c37events_queued;
}

-- A buffer that holds one frame and nothing else.
abbrev pub frame_buffer : List ℕ → Buffer
frame_buffer f = record {
  buffer = f;
  max_buffer_bytes = 1024;
  valid_buffer_bytes = length f;
  buf_state = unknown_msg;
  msg_len_bytes = length f;
  msg_type = 0;
  msg_counter = 0;
}

unfoldable pub on_frame : List ℕ → Sinks → Sinks × List SecBuffer
on_frame f s =
    let t = record s { bytes_recv = s.bytes_recv + length f } in
    let r = process_c37_event (frac_time f) (soc_time f) (frame_buffer f) s.reformat in
    if frame_type f == 0
    then (
      record t {
        reformat = r.0;
        c37events_recv = s.c37events_recv + 1;
        c37events_queued = s.c37events_queued + 1;
      },
      posted_list r.1,
    )
    else (t, [])

unfoldable pub run_frames : List (List ℕ) → Sinks → Sinks × List SecBuffer
run_frames [] s = (s, [])
run_frames (f ∷ fs) s =
    let (t, out) = on_frame f s in let (u, outs) = run_frames fs t in (u, out ++ outs)

-- The reformatter takes from the buffer the length and the bytes of the message alone.
step_in_local :
    (s : State) (b c : Buffer) (frac_sec sec : ℕ) (r : Reformat)
    → b.msg_len_bytes ≡ c.msg_len_bytes
    → take b.msg_len_bytes b.buffer ≡ take c.msg_len_bytes c.buffer
    → step_in s b frac_sec sec r ≡ step_in s c frac_sec sec r
unfolding step_in
step_in_local sync_to_sec b c frac_sec sec r e h = rw (h, e)
step_in_local fill_buffer b c frac_sec sec r e h = rw (h, e)

process_c37_event_local :
    (b : Buffer) (r : Reformat)
    → b.msg_len_bytes ≤ length b.buffer
    → let f = take b.msg_len_bytes b.buffer in
      process_c37_event (frac_time b.buffer) (soc_time b.buffer) b r
      ≡ process_c37_event (frac_time f) (soc_time f) (frame_buffer f) r
unfolding process_c37_event
process_c37_event_local b r h =
    let m = b.msg_len_bytes in
    let buf = b.buffer in
    let len : length (take m buf) ≡ m = omega (arith, length-take m buf) in
    elim (Bool-cases (m == 74)) [
      | inr n ↦ rw (len, n)
      | inl t ↦
          let g : (k : ℕ) → k < 74 → get_or (take m buf) k 0 ≡ get_or buf k 0 =
            λ k q. get_or-take m k buf 0 (ground arith) in
          rw
            (
              len,
              t,
              g 6 (omega arith),
              g 7 (omega arith),
              g 8 (omega arith),
              g 9 (omega arith),
              g 11 (omega arith),
              g 12 (omega arith),
              g 13 (omega arith),
            )
            (step_in_local r.current_state b
              (record (frame_buffer (take m buf)) { valid_buffer_bytes = m; msg_len_bytes = m })
              (frac_time buf) (soc_time buf) r refl (sym (take-take_le m m buf (omega arith))))
    ]

-- The body of the loop treats its message as `on_frame` does, and takes it out of the buffer.
pub on_message_frame :
    (p : Platform) (ch : Channel)
    → let b = ch.c37_buf in
      b.msg_len_bytes ≤ length b.buffer
      → let f = take b.msg_len_bytes b.buffer in
        b.msg_type ≡ frame_type f
        → (sinks (on_message p ch).0 ≡ (on_frame f (sinks ch)).0)
          × ((on_message p ch).1 ≡ (on_frame f (sinks ch)).1)
          × ((on_message p ch).0.c37_buf ≡ (remove_msg_from_buffer b).0)
unfolding on_message on_frame
on_message_frame p ch h t =
    let b = ch.c37_buf in
    let m = b.msg_len_bytes in
    let len : length (take m b.buffer) ≡ m = omega (arith, length-take m b.buffer) in
    let e = process_c37_event_local b ch.c37reformat h in
    elim (Bool-cases (b.msg_type == 0)) [
      | inl z ↦ rw (← t, z, ← e) (ground (arith, len), refl, refl)
      | inr n ↦ rw (← t, n) (ground (arith, len), ground arith, ground arith)
    ]
