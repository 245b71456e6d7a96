-- ===== src/Phasor/Buffer/Reach.antt =====
-- Every state that the receive buffer can come to.
use sparcs.Prelude.{arith, ℕ, ◌+◌, ◌≤◌, ◌≡◌, refl, sym, List, length}
use mathlib.Core.Path.{subst}
use sparcs.Phasor.Buffer.{
  Buffer, BufState, unknown_msg, partial_msg, complete_msg, new_buffer, init, receive,
  examine_buffer, remove_msg_from_buffer, get_buffer_desc, remove_c37_msg_from_buffer,
}
use sparcs.Phasor.Buffer.Inv.{IsValid, new_buffer-IsValid, init-IsValid, examine_buffer-IsValid}
use sparcs.Phasor.Buffer.Remove.{remove_msg_from_buffer_lem, remove_c37-remove}
use sparcs.Phasor.Buffer.Receive.{receive-IsValid}

-- One call of the buffer's interface. A read delivers at most the bytes that were offered to it.
pub data Step : Buffer → Buffer → Type 0 where
  on_init : {b : Buffer} → Step b (init b)
  on_receive :
      {b : Buffer} (xs : List ℕ) → length xs ≤ (get_buffer_desc b).1 → Step b (receive xs b)
  on_examine : {b : Buffer} → Step b (examine_buffer b).0
  on_remove : {b : Buffer} → Step b (remove_msg_from_buffer b).0
  on_remove_c37 : {b : Buffer} (out : List ℕ) → Step b (remove_c37_msg_from_buffer out b).1

pub data Reachable : Buffer → Type 0 where
  start : Reachable new_buffer
  step : {b c : Buffer} → Reachable b → Step b c → Reachable c

remove-IsValid :
    (s : BufState) (b : Buffer) → b.buf_state ≡ s → IsValid b → IsValid (remove_msg_from_buffer b).0
remove-IsValid complete_msg b e v = ((remove_msg_from_buffer_lem b v).0 e).1
remove-IsValid unknown_msg b e v =
    subst IsValid (sym ((remove_msg_from_buffer_lem b v).1 (λ q. cc)).1) v
remove-IsValid partial_msg b e v =
    subst IsValid (sym ((remove_msg_from_buffer_lem b v).1 (λ q. cc)).1) v

offered-fits :
    (b : Buffer) → IsValid b → (n : ℕ) → n ≤ (get_buffer_desc b).1 → b.valid_buffer_bytes + n ≤ 1024
unfolding get_buffer_desc
offered-fits b v n h = omega (arith, h, v.cap, v.fits)

Step-IsValid : {b c : Buffer} → Step b c → IsValid b → IsValid c
Step-IsValid {b} on_init v = init-IsValid b v.array
Step-IsValid {b} (on_receive xs h) v = receive-IsValid xs b v (offered-fits b v (length xs) h)
Step-IsValid {b} on_examine v = examine_buffer-IsValid b v
Step-IsValid {b} on_remove v = remove-IsValid b.buf_state b refl v
Step-IsValid {b} (on_remove_c37 out) v =
    subst IsValid (sym (remove_c37-remove out b).0) (remove-IsValid b.buf_state b refl v)

-- Whatever calls of the receive buffer are made and in whatever order, as long as each read
-- stays within the space offered: the array has 1024 bytes, the valid bytes fit it, and in the
-- partial and the complete state the length and type fields are those of the frame at the
-- start.
pub Reachable-IsValid : {b : Buffer} → Reachable b → IsValid b
Reachable-IsValid start = new_buffer-IsValid
Reachable-IsValid (step r s) = Step-IsValid s (Reachable-IsValid r)
