-- ===== src/Phasor/Buffer/Remove.antt =====
-- Removing a message: what the buffer holds afterwards.
use sparcs.Prelude.{
  ℕ, ◌+◌, ◌-◌, ◌≤◌, ◌≡◌, ◌≢◌, refl, ap, ◌∙◌, List, drop, arith, false, true, Bool-cases, inl, inr,
}
use sparcs.Phasor.Buffer.{
  Buffer, BufState, unknown_msg, partial_msg, complete_msg, remove_msg_from_buffer, drop_msg,
  is_mangled, space, is_complete, remove_c37_msg_from_buffer, bytes_left, err_buf_state_mangled,
}
use sparcs.Phasor.Buffer.Inv.{IsValid, complete-Known, contents}
use sparcs.Phasor.Buffer.Shift.{take-move_down, length-move_down, copy_down-move_down}

-- In the complete state the guard lets the message go.
pub is_mangled_complete :
    (b : Buffer) → IsValid b → b.buf_state ≡ complete_msg → is_mangled b ≡ false
unfolding is_mangled
is_mangled_complete b v e = let k = complete-Known b v e in ground arith

pub msg_len-le_valid :
    (b : Buffer) → IsValid b → b.buf_state ≡ complete_msg → b.msg_len_bytes ≤ b.valid_buffer_bytes
msg_len-le_valid b v e = let k = complete-Known b v e in omega arith

pub drop_msg-IsValid : (b : Buffer) → IsValid b → b.buf_state ≡ complete_msg → IsValid (drop_msg b)
unfolding drop_msg
drop_msg-IsValid b v e = record {
  array =
      length-move_down (b.valid_buffer_bytes + 1 - b.msg_len_bytes) b.msg_len_bytes 0 b.buffer
      ∙ v.array;
  cap = v.cap;
  fits = omega (arith, msg_len-le_valid b v e);
  known = tt;
}

valid-drop_msg :
    (b : Buffer)
    → IsValid b
    → b.buf_state ≡ complete_msg
    → (drop_msg b).valid_buffer_bytes ≡ b.valid_buffer_bytes - b.msg_len_bytes
unfolding drop_msg
valid-drop_msg b v e = omega (arith, msg_len-le_valid b v e)

pub contents-drop_msg :
    (b : Buffer)
    → IsValid b
    → b.buf_state ≡ complete_msg
    → contents (drop_msg b) ≡ drop b.msg_len_bytes (contents b)
unfolding drop_msg
contents-drop_msg b v e = rw (valid-drop_msg b v e) (
    take-move_down b.valid_buffer_bytes b.msg_len_bytes b.buffer (msg_len-le_valid b v e)
      (omega arith))

pub remove_complete :
    (b : Buffer)
    → IsValid b
    → b.buf_state ≡ complete_msg
    → (remove_msg_from_buffer b).0 ≡ drop_msg b
unfolding remove_msg_from_buffer
remove_complete b v e = rw (is_mangled_complete b v e)

drop_msg-unknown : (b : Buffer) → (drop_msg b).buf_state ≡ unknown_msg
unfolding drop_msg
drop_msg-unknown b = refl

space-IsValid :
    {b : Buffer} → IsValid b → bytes_left (space b) ≡ bytes_left (1024 - b.valid_buffer_bytes)
space-IsValid v = ap bytes_left (omega (arith, v.cap, v.fits))

is_complete_other : (s : BufState) → s ≢ complete_msg → is_complete s ≡ false
is_complete_other unknown_msg n = refl
is_complete_other partial_msg n = refl
is_complete_other complete_msg n = absurd (n refl)

is_mangled_other : (b : Buffer) → b.buf_state ≢ complete_msg → is_mangled b ≡ true
unfolding is_mangled
is_mangled_other b n = rw (is_complete_other b.buf_state n)

-- `removeMsgFromBuffer` on a valid buffer: in the complete state the message goes, the bytes
-- behind it stay, the buffer is valid and waits for a message, and the answer is the space that
-- is left; in any other state the answer is the error and the buffer is as it was.
pub remove_msg_from_buffer_lem :
    (b : Buffer)
    → IsValid b
    → let r = remove_msg_from_buffer b in
      (b.buf_state ≡ complete_msg
        → (contents r.0 ≡ drop b.msg_len_bytes (contents b))
          × IsValid r.0
          × (r.0.buf_state ≡ unknown_msg)
          × (r.1 ≡ bytes_left (1024 - r.0.valid_buffer_bytes)))
      × (b.buf_state ≢ complete_msg → (r.1 ≡ err_buf_state_mangled) × (r.0 ≡ b))
unfolding remove_msg_from_buffer
remove_msg_from_buffer_lem b v = (
  λ e.
      let d = drop_msg-IsValid b v e in
      rw (is_mangled_complete b v e)
        (contents-drop_msg b v e, d, drop_msg-unknown b, space-IsValid d),
  λ n. rw (is_mangled_other b n) (refl, refl),
)

-- `removeC37MsgFromBuffer` leaves the buffer in the state that `removeMsgFromBuffer` leaves it
-- in and gives the same answer, whatever the second array holds.
pub remove_c37-remove :
    (out : List ℕ) (b : Buffer)
    → ((remove_c37_msg_from_buffer out b).1 ≡ (remove_msg_from_buffer b).0)
      × ((remove_c37_msg_from_buffer out b).2 ≡ (remove_msg_from_buffer b).1)
unfolding remove_c37_msg_from_buffer remove_msg_from_buffer drop_msg
remove_c37-remove out b =
    let same =
      copy_down-move_down (b.valid_buffer_bytes + 1 - b.msg_len_bytes) b.msg_len_bytes 0 out
        b.buffer in
    elim (Bool-cases (is_mangled b)) [
      | inl t ↦ rw t (refl, refl)
      | inr f ↦ rw (f, same) (refl, refl)
    ]
