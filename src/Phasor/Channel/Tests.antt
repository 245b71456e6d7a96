-- ===== src/Phasor/Channel/Tests.antt =====
-- Concrete reads through the handler of the synchrophasor channel.
use sparcs.Prelude.{
  ℕ, ◌+◌, ◌≡◌, refl, sym, ap, ◌∙◌, List, [], ◌∷◌, ◌++◌, take, arith, foldl, ◌*◌, ◌%◌, none, ltb,
}
use mathlib.Core.Path.{subst}
use sparcs.Phasor.Buffer.{new_buffer, receive}
use sparcs.Phasor.Buffer.Inv.{contents, HasFrame, frame_size, new_buffer-IsValid}
use sparcs.Phasor.Buffer.Receive.{receive-IsValid, contents-receive}
use sparcs.Phasor.Cfg.{Platform}
use sparcs.Phasor.Channel.{Channel, new_channel, drain}
use sparcs.Phasor.Channel.Stream.{Frames, done, next}
use sparcs.Phasor.Channel.Drain.{IsReady}
use sparcs.Phasor.Channel.Deliver.{Delivered, read_handler-Frames}
use sparcs.Phasor.Channel.Stuck.{drain_stuck}

abbrev platform : Platform
platform = record { crc_ccitt = foldl (λ s x. (s * 31 + x) % 65536) 65535; isprint = λ c. ltb 31 c }

abbrev frame_a : List ℕ
frame_a = 0xaa ∷ 0x01 ∷ 0 ∷ 6 ∷ 0 ∷ 5 ∷ []

abbrev frame_b : List ℕ
frame_b = 0xaa ∷ 0x21 ∷ 0 ∷ 6 ∷ 0 ∷ 7 ∷ []

start-IsReady : IsReady new_channel.c37_buf
unfolding new_channel new_buffer
start-IsReady = record { valid = new_buffer-IsValid; waiting = λ e. cc }

contents-start : contents new_channel.c37_buf ≡ []
unfolding new_channel new_buffer
contents-start = refl

valid-start : new_channel.c37_buf.valid_buffer_bytes ≡ 0
unfolding new_channel new_buffer
valid-start = refl

-- A frame and a part of another.
abbrev read_1 : List ℕ
read_1 = frame_a ++ take 4 frame_b

first_read-Frames : Frames (contents new_channel.c37_buf ++ read_1) (frame_a ∷ []) (take 4 frame_b)
first_read-Frames =
    subst (λ xs. Frames (xs ++ read_1) (frame_a ∷ []) (take 4 frame_b)) (sym contents-start)
      (next (omega arith) (omega arith) (done (λ h. omega arith) refl))

read_handler-Frames_example :
    Delivered platform 1025 read_1 new_channel (frame_a ∷ []) (take 4 frame_b)
read_handler-Frames_example =
    read_handler-Frames platform 1025 read_1 new_channel (frame_a ∷ []) (take 4 frame_b)
      start-IsReady (omega arith) (omega (arith, valid-start)) first_read-Frames (omega arith)

-- A header with the size 0.
abbrev frame_0 : List ℕ
frame_0 = 0xaa ∷ 0x01 ∷ 0 ∷ 0 ∷ []

abbrev channel_0 : Channel
channel_0 = record new_channel { c37_buf = receive frame_0 new_channel.c37_buf }

channel_0-IsReady : IsReady channel_0.c37_buf
channel_0-IsReady = record {
  valid =
      receive-IsValid frame_0 new_channel.c37_buf start-IsReady.valid (omega (arith, valid-start));
  waiting = λ e. start-IsReady.waiting (unfold receive in e);
}

contents-channel_0 : contents channel_0.c37_buf ≡ frame_0
contents-channel_0 =
    contents-receive frame_0 new_channel.c37_buf start-IsReady.valid (omega (arith, valid-start))
    ∙ ap (λ xs. xs ++ frame_0) contents-start

drain_stuck_example : drain platform 1000 channel_0 ≡ none
drain_stuck_example =
    drain_stuck platform 1000 channel_0 channel_0-IsReady
      (subst HasFrame (sym contents-channel_0) (omega arith))
      (subst (λ xs. frame_size xs ≡ 0) (sym contents-channel_0) refl)
