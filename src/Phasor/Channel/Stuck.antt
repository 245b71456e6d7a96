-- ===== src/Phasor/Channel/Stuck.antt =====
-- A frame whose size field is 0: the loop of `read_handler` removes nothing and never ends.
use sparcs.Prelude.{ℕ, zero, suc, ◌≡◌, ◌∙◌, refl, ap, sym, none, arith}
use mathlib.Core.Path.{subst}
use sparcs.Phasor.Buffer.{remove_msg_from_buffer, examine_buffer, drop_msg}
use sparcs.Phasor.Buffer.Inv.{
  IsValid, contents, HasFrame, frame_size, examine_buffer-IsValid, contents-examine_buffer,
}
use sparcs.Phasor.Buffer.Examine.{examine_buffer_found}
use sparcs.Phasor.Buffer.Remove.{remove_complete, drop_msg-IsValid, contents-drop_msg}
use sparcs.Phasor.Cfg.{Platform}
use sparcs.Phasor.Channel.{Channel, drain, on_message}
use sparcs.Phasor.Channel.Drain.{IsReady, examined, drop_msg_waits}

c37_buf-on_message :
    (p : Platform) (ch : Channel)
    → (on_message p ch).0.c37_buf ≡ (remove_msg_from_buffer ch.c37_buf).0
unfolding on_message
c37_buf-on_message p ch = ground arith

-- A round on such a frame leaves the bytes as they were.
round_stuck :
    (p : Platform) (ch : Channel)
    → IsReady ch.c37_buf
    → HasFrame (contents ch.c37_buf)
    → frame_size (contents ch.c37_buf) ≡ 0
    → let b = (on_message p (examined ch)).0.c37_buf in
      IsReady b × (contents b ≡ contents ch.c37_buf)
round_stuck p ch r h z =
    let e = (examine_buffer ch.c37_buf).0 in
    let found = examine_buffer_found ch.c37_buf r.valid r.waiting h in
    let v : IsValid e = examine_buffer-IsValid ch.c37_buf r.valid in
    let buf : (on_message p (examined ch)).0.c37_buf ≡ drop_msg e =
      c37_buf-on_message p (examined ch) ∙ remove_complete e v found.1 in
    (
      subst (λ c. IsReady c) (sym buf)
          (record { valid = drop_msg-IsValid e v found.1; waiting = drop_msg_waits e }),
      ap contents buf
          ∙ contents-drop_msg e v found.1
          ∙ rw (found.2 ∙ z) (contents-examine_buffer ch.c37_buf),
    )

-- If a valid waiting buffer begins with a frame whose size field is 0, the loop of the read
-- handler has not ended after any number of rounds.
pub drain_stuck :
    (p : Platform) (fuel : ℕ) (ch : Channel)
    → IsReady ch.c37_buf
    → HasFrame (contents ch.c37_buf)
    → frame_size (contents ch.c37_buf) ≡ 0
    → drain p fuel ch ≡ none
unfolding drain
drain_stuck p zero ch r h z = refl
drain_stuck p (suc fuel) ch r h z =
    let found = examine_buffer_found ch.c37_buf r.valid r.waiting h in
    let k = round_stuck p ch r h z in
    let ih =
      drain_stuck p fuel (on_message p (examined ch)).0 k.0 (subst HasFrame (sym k.1) h)
        (rw k.1 z) in
    rw (found.0, ih)
