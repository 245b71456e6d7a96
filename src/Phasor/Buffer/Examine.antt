-- ===== src/Phasor/Buffer/Examine.antt =====
-- What `C37_Buffer::examineBuffer` answers, by the bytes that the buffer holds.
use sparcs.Prelude.{◌≤◌, ◌<◌, ◌≡◌, ◌≢◌, refl, sym, ◌∙◌, arith, get_or-take, length-take}
use native.Mathlib.Decide.{dec_lt}
use sparcs.Phasor.Buffer.{
  Buffer, BufState, unknown_msg, partial_msg, complete_msg, Status, bytes_left, examine_buffer,
  examine_in, examine_unknown, examine_partial,
}
use sparcs.Phasor.Buffer.Inv.{IsValid, Known, HasFrame, contents, frame_size, frame_type}

-- The header of a frame is within the bytes held.
pub frame_size-contents :
    (b : Buffer) → 4 ≤ b.valid_buffer_bytes → frame_size (contents b) ≡ frame_size b.buffer
frame_size-contents b h = rw (
  get_or-take b.valid_buffer_bytes 2 b.buffer 0 (omega arith),
  get_or-take b.valid_buffer_bytes 3 b.buffer 0 (omega arith),
)

pub frame_type-contents :
    (b : Buffer) → 4 ≤ b.valid_buffer_bytes → frame_type (contents b) ≡ frame_type b.buffer
frame_type-contents b h = rw (get_or-take b.valid_buffer_bytes 1 b.buffer 0 (omega arith))

-- What holds of the result when a whole frame is there, and when none is.
abbrev FoundBy : Buffer → Buffer × Status → Type 0
FoundBy b r =
    (r.1 ≡ bytes_left 0)
    × (r.0.buf_state ≡ complete_msg)
    × (r.0.msg_len_bytes ≡ frame_size b.buffer)
    × (r.0.msg_type ≡ frame_type b.buffer)

abbrev Missing : Buffer × Status → Type 0
Missing r = (r.1 ≢ bytes_left 0) × (r.0.buf_state ≢ complete_msg)

abbrev Fits : Buffer → Type 0
Fits b =
    (4 ≤ b.valid_buffer_bytes)
    × (frame_size b.buffer ≤ 1024)
    × (frame_size b.buffer ≤ b.valid_buffer_bytes)

examine_partial-FoundBy :
    (b : Buffer)
    → Known partial_msg b
    → frame_size b.buffer ≤ b.valid_buffer_bytes
    → FoundBy b (examine_partial b)
unfolding examine_partial
examine_partial-FoundBy b k h = ground arith

examine_partial-Missing :
    (b : Buffer)
    → b.max_buffer_bytes ≡ 1024
    → b.buf_state ≡ partial_msg
    → Known partial_msg b
    → b.valid_buffer_bytes < frame_size b.buffer
    → Missing (examine_partial b)
unfolding examine_partial
examine_partial-Missing b m e k h = (ground arith, ground arith)

examine_unknown-FoundBy :
    (b : Buffer) → b.max_buffer_bytes ≡ 1024 → Fits b → FoundBy b (examine_unknown b)
unfolding examine_unknown
examine_unknown-FoundBy b m h = ground arith

examine_unknown-Missing :
    (b : Buffer) → IsValid b → b.buf_state ≡ unknown_msg → ¬ Fits b → Missing (examine_unknown b)
unfolding examine_unknown
examine_unknown-Missing b v e h = (ground (arith), ground arith)

examine_in-FoundBy :
    (s : BufState) (b : Buffer)
    → IsValid b
    → Known s b
    → s ≢ complete_msg
    → Fits b
    → FoundBy b (examine_in s b)
unfolding examine_in
examine_in-FoundBy unknown_msg b v k n h = examine_unknown-FoundBy b v.cap h
examine_in-FoundBy partial_msg b v k n h = examine_partial-FoundBy b k h.2
examine_in-FoundBy complete_msg b v k n h = absurd (n refl)

examine_in-Missing :
    (s : BufState) (b : Buffer)
    → IsValid b
    → b.buf_state ≡ s
    → Known s b
    → s ≢ complete_msg
    → ¬ Fits b
    → Missing (examine_in s b)
unfolding examine_in
examine_in-Missing unknown_msg b v e k n h = examine_unknown-Missing b v e h
examine_in-Missing partial_msg b v e k n h =
    elim (dec_lt b.valid_buffer_bytes (frame_size b.buffer)) [
      | yes p ↦ examine_partial-Missing b v.cap e k p
      | no p ↦ absurd (h (omega arith))
    ]
examine_in-Missing complete_msg b v e k n h = absurd (n refl)

HasFrame-Fits : (b : Buffer) → IsValid b → HasFrame (contents b) → Fits b
HasFrame-Fits b v h =
    omega (arith, length-take b.valid_buffer_bytes b.buffer, frame_size-contents b)

Fits-HasFrame : (b : Buffer) → IsValid b → Fits b → HasFrame (contents b)
Fits-HasFrame b v h =
    omega (arith, length-take b.valid_buffer_bytes b.buffer, frame_size-contents b)

-- On a valid buffer that has announced no message and whose bytes begin with a whole frame of
-- at most 1024 bytes, `examineBuffer` answers 0 and announces the message with the size and the
-- type that the frame carries.
pub examine_buffer_found :
    (b : Buffer)
    → IsValid b
    → b.buf_state ≢ complete_msg
    → HasFrame (contents b)
    → ((examine_buffer b).1 ≡ bytes_left 0)
      × ((examine_buffer b).0.buf_state ≡ complete_msg)
      × ((examine_buffer b).0.msg_len_bytes ≡ frame_size (contents b))
      × ((examine_buffer b).0.msg_type ≡ frame_type (contents b))
unfolding examine_buffer
examine_buffer_found b v n h =
    let p = HasFrame-Fits b v h in
    let r = examine_in-FoundBy b.buf_state b v v.known n p in
    (r.0, r.1, r.2 ∙ sym (frame_size-contents b p.0), r.3 ∙ sym (frame_type-contents b p.0))

-- On a valid buffer that has announced no message and whose bytes do not begin with a whole
-- frame of at most 1024 bytes, `examineBuffer` does not answer 0 and announces no message.
pub examine_buffer_missing :
    (b : Buffer)
    → IsValid b
    → b.buf_state ≢ complete_msg
    → ¬ HasFrame (contents b)
    → ((examine_buffer b).1 ≢ bytes_left 0) × ((examine_buffer b).0.buf_state ≢ complete_msg)
unfolding examine_buffer
examine_buffer_missing b v n h =
    examine_in-Missing b.buf_state b v refl v.known n (λ p. h (Fits-HasFrame b v p))
