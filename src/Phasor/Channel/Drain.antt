-- ===== src/Phasor/Channel/Drain.antt =====
-- The loop of `read_handler` against the stream of frames.
use sparcs.Prelude.{
  ℕ, zero, suc, ◌≤◌, ◌<◌, ◌≡◌, ◌≢◌, refl, ap, ◌∙◌, sym, List, [], ◌∷◌, length, take, drop, arith,
  true, false, get_or-take, length-drop, take-take_le, some,
}
use mathlib.Core.Path.{subst}
use sparcs.Phasor.Buffer.{
  Buffer, Status, bytes_left, err_msg_larger_than_buffer, err_exam_buf_call_out_of_seq,
  err_buf_state_mangled, complete_msg, examine_buffer, drop_msg,
}
use sparcs.Phasor.Buffer.Inv.{
  IsValid, contents, HasFrame, frame_size, frame_type, examine_buffer-IsValid,
  contents-examine_buffer,
}
use sparcs.Phasor.Buffer.Examine.{examine_buffer_found, examine_buffer_missing}
use sparcs.Phasor.Buffer.Remove.{
  remove_complete, drop_msg-IsValid, contents-drop_msg, msg_len-le_valid,
}
use sparcs.Phasor.Cfg.{Platform}
use sparcs.Phasor.Channel.{Channel, drain, on_message, is_zero}
use sparcs.Phasor.Channel.Stream.{Frames, done, next, sinks, on_frame, run_frames, on_message_frame}

is_zero-bytes_left : (s : Status) → s ≢ bytes_left 0 → is_zero s ≡ false
is_zero-bytes_left (bytes_left n) h = ground (arith, λ (e : n ≡ 0). h (ap bytes_left e))
is_zero-bytes_left err_msg_larger_than_buffer h = refl
is_zero-bytes_left err_exam_buf_call_out_of_seq h = refl
is_zero-bytes_left err_buf_state_mangled h = refl

pub drop_msg_waits : (b : Buffer) → (drop_msg b).buf_state ≢ complete_msg
unfolding drop_msg
drop_msg_waits b e = cc

-- Between two rounds: the invariant, and no message announced.
pub record IsReady (b : Buffer) : Type 0 where
  pub valid : IsValid b
  pub waiting : b.buf_state ≢ complete_msg

abbrev pub examined : Channel → Channel
examined ch = record ch { c37_buf = (examine_buffer ch.c37_buf).0 }

-- The body of the loop on a complete message of at least four bytes.
complete_round :
    (p : Platform) (ch : Channel)
    → let b = ch.c37_buf in
      let xs = contents b in
      let m = on_message p ch in
      let f = take b.msg_len_bytes xs in
      IsValid b
      → b.buf_state ≡ complete_msg
      → b.msg_type ≡ frame_type xs
      → 4 ≤ b.msg_len_bytes
      → IsReady m.0.c37_buf
        × (contents m.0.c37_buf ≡ drop b.msg_len_bytes xs)
        × (sinks m.0 ≡ (on_frame f (sinks ch)).0)
        × (m.1 ≡ (on_frame f (sinks ch)).1)
complete_round p ch v e t h =
    let b = ch.c37_buf in
    let n = b.msg_len_bytes in
    let le = msg_len-le_valid b v e in
    let same : take n (contents b) ≡ take n b.buffer =
      take-take_le n b.valid_buffer_bytes b.buffer le in
    let f = on_message_frame p ch (omega (arith, v.array)) (
      t
      ∙ rw (
        get_or-take b.valid_buffer_bytes 1 b.buffer 0 (omega arith),
        get_or-take n 1 b.buffer 0 (omega arith),
      )) in
    let buf : (on_message p ch).0.c37_buf ≡ drop_msg b = f.2 ∙ remove_complete b v e in
    (
      subst (λ c. IsReady c) (sym buf)
          (record { valid = drop_msg-IsValid b v e; waiting = drop_msg_waits b }),
      rw buf (contents-drop_msg b v e),
      rw same f.0,
      rw same f.1,
    )

-- One round on a whole frame.
round_found :
    (p : Platform) (ch : Channel)
    → IsReady ch.c37_buf
    → HasFrame (contents ch.c37_buf)
    → let xs = contents ch.c37_buf in
      let m = on_message p (examined ch) in
      let f = take (frame_size xs) xs in
      4 ≤ frame_size xs
      → (is_zero (examine_buffer ch.c37_buf).1 ≡ true)
        × IsReady m.0.c37_buf
        × (contents m.0.c37_buf ≡ drop (frame_size xs) xs)
        × (sinks m.0 ≡ (on_frame f (sinks ch)).0)
        × (m.1 ≡ (on_frame f (sinks ch)).1)
round_found p ch r h four =
    let found = examine_buffer_found ch.c37_buf r.valid r.waiting h in
    let same = contents-examine_buffer ch.c37_buf in
    let c =
      complete_round p (examined ch) (examine_buffer-IsValid ch.c37_buf r.valid) found.1
        (found.3 ∙ ap frame_type (sym same)) (omega (arith, found.2)) in
    (
      rw found.0,
      c.0,
      rw (← found.2, ← same) c.1,
      rw (← found.2, ← same) c.2,
      rw (← found.2, ← same) c.3,
    )

-- What the loop must have done, given the frames that it found.
abbrev Drained : Platform → ℕ → Channel → List (List ℕ) → List ℕ → Type 0
Drained p fuel ch fs rest =
    (ch' : Channel) × (drain p fuel ch ≡ some (ch', (run_frames fs (sinks ch)).1))
    × (sinks ch' ≡ (run_frames fs (sinks ch)).0)
    × (contents ch'.c37_buf ≡ rest)
    × IsReady ch'.c37_buf

drain_done :
    (p : Platform) (fuel : ℕ) (ch : Channel) (rest : List ℕ)
    → IsReady ch.c37_buf
    → ¬ HasFrame (contents ch.c37_buf)
    → contents ch.c37_buf ≡ rest
    → Drained p (suc fuel) ch [] rest
unfolding drain run_frames
drain_done p fuel ch rest r n e =
    let missing = examine_buffer_missing ch.c37_buf r.valid r.waiting n in
    (
      examined ch,
      rw (is_zero-bytes_left (examine_buffer ch.c37_buf).1 missing.0),
      refl,
      contents-examine_buffer ch.c37_buf ∙ e,
      record { valid = examine_buffer-IsValid ch.c37_buf r.valid; waiting = missing.1 },
    )

drain_next :
    (p : Platform) (fuel : ℕ) (ch : Channel) (fs : List (List ℕ)) (rest : List ℕ)
    → let xs = contents ch.c37_buf in
      IsReady ch.c37_buf
      → HasFrame xs
      → 4 ≤ frame_size xs
      → Drained p fuel (on_message p (examined ch)).0 fs rest
      → Drained p (suc fuel) ch (take (frame_size xs) xs ∷ fs) rest
unfolding drain run_frames
drain_next p fuel ch fs rest r h four (last, ran, out, left, ready) =
    let k = round_found p ch r h four in
    let s = k.3 in (last, rw (k.0, ran, s, k.4), rw (← s) out, left, ready)

-- With fuel for each byte held, the loop ends, and it has handled exactly the frames that stand
-- in the buffer, in order; the bytes behind the last of them stay.
pub drain-Frames :
    (p : Platform) (fuel : ℕ) (ch : Channel) {xs rest : List ℕ} {fs : List (List ℕ)}
    → Frames xs fs rest
    → IsReady ch.c37_buf
    → contents ch.c37_buf ≡ xs
    → length xs < fuel
    → Drained p fuel ch fs rest
drain-Frames p zero ch f r e h = absurd (omega arith)
drain-Frames p (suc fuel) ch (done n q) r e h =
    drain_done p fuel ch _ r (λ f. n (subst HasFrame e f)) (e ∙ q)
drain-Frames p (suc fuel) ch {xs} {rest} (next {fs = fs} has four more) r e h =
    let has' = subst HasFrame (sym e) has in
    let four' : 4 ≤ frame_size (contents ch.c37_buf) = rw e four in
    let k = round_found p ch r has' four' in
    rw (← e) (
      drain_next p fuel ch fs rest r has' four' (
        drain-Frames p fuel (on_message p (examined ch)).0 more k.1
          (k.2 ∙ ap (λ ys. drop (frame_size ys) ys) e)
          (omega (arith, length-drop (frame_size xs) xs))))
