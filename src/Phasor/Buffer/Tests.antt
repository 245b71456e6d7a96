-- ===== src/Phasor/Buffer/Tests.antt =====
-- Concrete frames through the receive buffer.
use sparcs.Prelude.{
  ℕ, ◌-◌, ◌≤◌, ◌≡◌, ◌≢◌, refl, sym, ap, ◌∙◌, List, [], ◌∷◌, ◌++◌, length, drop, arith,
}
use mathlib.Core.Path.{subst}
use sparcs.Phasor.Buffer.{
  get_buffer_desc, Buffer, new_buffer, receive, examine_buffer, bytes_left, complete_msg,
  unknown_msg, remove_msg_from_buffer, err_buf_state_mangled,
}
use sparcs.Phasor.Buffer.Inv.{
  IsValid, contents, HasFrame, frame_size, frame_type, new_buffer-IsValid, examine_buffer-IsValid,
  contents-examine_buffer,
}
use sparcs.Phasor.Buffer.Examine.{examine_buffer_found, examine_buffer_missing}
use sparcs.Phasor.Buffer.Remove.{remove_msg_from_buffer_lem}
use sparcs.Phasor.Buffer.Receive.{receive-IsValid, contents-receive}
use sparcs.Phasor.Buffer.Reach.{
  Reachable, start, step, on_receive, on_examine, on_remove, Reachable-IsValid,
}

-- Two data frames of six bytes, and the start of a third.
abbrev frame_a : List ℕ
frame_a = 0xaa ∷ 0x01 ∷ 0 ∷ 6 ∷ 0 ∷ 5 ∷ []

abbrev frame_b : List ℕ
frame_b = 0xaa ∷ 0x21 ∷ 0 ∷ 6 ∷ 0 ∷ 7 ∷ []

abbrev start_c : List ℕ
start_c = 0xaa ∷ 0x01 ∷ 0 ∷ []

contents-new_buffer : contents new_buffer ≡ []
unfolding new_buffer
contents-new_buffer = refl

valid-new_buffer : new_buffer.valid_buffer_bytes ≡ 0
unfolding new_buffer
valid-new_buffer = refl

state-new_buffer : new_buffer.buf_state ≡ unknown_msg
unfolding new_buffer
state-new_buffer = refl

-- The buffer after its first bytes.
abbrev holds : List ℕ → Buffer
holds xs = receive xs new_buffer

holds-IsValid : (xs : List ℕ) → length xs ≤ 1024 → IsValid (holds xs)
holds-IsValid xs h =
    receive-IsValid xs new_buffer new_buffer-IsValid (omega (arith, valid-new_buffer))

contents-holds : (xs : List ℕ) → length xs ≤ 1024 → contents (holds xs) ≡ xs
contents-holds xs h =
    contents-receive xs new_buffer new_buffer-IsValid (omega (arith, valid-new_buffer))
    ∙ ap (λ ys. ys ++ xs) contents-new_buffer

holds-waits : (xs : List ℕ) → (holds xs).buf_state ≢ complete_msg
unfolding receive new_buffer
holds-waits xs e = cc

examine_buffer_found_example :
    let b = holds (frame_a ++ start_c) in
    ((examine_buffer b).1 ≡ bytes_left 0)
    × ((examine_buffer b).0.buf_state ≡ complete_msg)
    × ((examine_buffer b).0.msg_len_bytes ≡ frame_size (contents b))
    × ((examine_buffer b).0.msg_type ≡ frame_type (contents b))
examine_buffer_found_example =
    examine_buffer_found (holds (frame_a ++ start_c))
      (holds-IsValid (frame_a ++ start_c) (omega arith)) (holds-waits (frame_a ++ start_c))
      (subst HasFrame (sym (contents-holds (frame_a ++ start_c) (omega arith))) (omega arith))

examine_buffer_missing_example :
    let b = holds start_c in
    ((examine_buffer b).1 ≢ bytes_left 0) × ((examine_buffer b).0.buf_state ≢ complete_msg)
examine_buffer_missing_example =
    examine_buffer_missing (holds start_c) (holds-IsValid start_c (omega arith))
      (holds-waits start_c)
      (λ h. let k = subst HasFrame (contents-holds start_c (omega arith)) h in omega arith)

-- A buffer with a complete message, and bytes behind it.
abbrev complete_buffer : Buffer
complete_buffer = (examine_buffer (holds (frame_a ++ start_c))).0

complete_buffer-IsValid : IsValid complete_buffer
complete_buffer-IsValid =
    examine_buffer-IsValid (holds (frame_a ++ start_c))
      (holds-IsValid (frame_a ++ start_c) (omega arith))

remove_msg_from_buffer_example :
    let r = remove_msg_from_buffer complete_buffer in
    (complete_buffer.buf_state ≡ complete_msg
      → (contents r.0 ≡ drop complete_buffer.msg_len_bytes (contents complete_buffer))
        × IsValid r.0
        × (r.0.buf_state ≡ unknown_msg)
        × (r.1 ≡ bytes_left (1024 - r.0.valid_buffer_bytes)))
    × (complete_buffer.buf_state ≢ complete_msg
        → (r.1 ≡ err_buf_state_mangled) × (r.0 ≡ complete_buffer))
remove_msg_from_buffer_example = remove_msg_from_buffer_lem complete_buffer complete_buffer-IsValid

-- The message goes, and the start of the next is what stays.
remove_leaves_start : contents (remove_msg_from_buffer complete_buffer).0 ≡ start_c
remove_leaves_start =
    let b = holds (frame_a ++ start_c) in
    let all = contents-holds (frame_a ++ start_c) (omega arith) in
    let found =
      examine_buffer_found b (holds-IsValid (frame_a ++ start_c) (omega arith))
        (holds-waits (frame_a ++ start_c)) (subst HasFrame (sym all) (omega arith)) in
    ((remove_msg_from_buffer_lem complete_buffer complete_buffer-IsValid).0 found.1).0
    ∙ rw (found.2, contents-examine_buffer b, all) refl

-- Bytes received, examined and removed.
offered : 9 ≤ (get_buffer_desc new_buffer).1
unfolding get_buffer_desc new_buffer
offered = omega arith

reached : Reachable (remove_msg_from_buffer complete_buffer).0
reached = step (step (step start (on_receive (frame_a ++ start_c) offered)) on_examine) on_remove

Reachable-IsValid_example : IsValid (remove_msg_from_buffer complete_buffer).0
Reachable-IsValid_example = Reachable-IsValid reached
