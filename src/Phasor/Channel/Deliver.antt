-- ===== src/Phasor/Channel/Deliver.antt =====
-- What `read_handler` delivers from the bytes of one read. `async_read` reads until the space is full
-- or the socket fails, so that fewer bytes come with an error, which the handler does not look at.
use sparcs.Prelude.{
  ℕ, ◌+◌, ◌≤◌, ◌<◌, ◌≡◌, refl, ◌∙◌, sym, List, [], ◌∷◌, ◌++◌, length, take, arith, ◌==◌, false,
  length-append, some, take-append_length, drop-append_length, get_or-append_left,
}
use mathlib.Core.List.{flatten, append_assoc}
use sparcs.Phasor.Buffer.{receive, get_buffer_desc}
use sparcs.Phasor.Buffer.Inv.{contents, HasFrame, frame_size, length-contents}
use sparcs.Phasor.Buffer.Receive.{receive-IsValid, contents-receive, buf_state-receive}
use sparcs.Phasor.Cfg.{Platform}
use sparcs.Phasor.Channel.{Channel, read_handler, async_read}
use sparcs.Phasor.Channel.Stream.{Frames, done, next, sinks, run_frames}
use sparcs.Phasor.Channel.Drain.{IsReady, drain-Frames}

-- The state of the read handler after it was called with `xs`, given the frames found.
abbrev pub Delivered : Platform → ℕ → List ℕ → Channel → List (List ℕ) → List ℕ → Type 0
Delivered p fuel xs ch fs rest =
    (ch' : Channel) × (read_handler p fuel xs ch
      ≡ some (ch', (run_frames fs (sinks ch)).1, async_read (get_buffer_desc ch'.c37_buf)))
    × (sinks ch' ≡ (run_frames fs (sinks ch)).0)
    × (contents ch'.c37_buf ≡ rest)
    × IsReady ch'.c37_buf

-- A read of at least one byte that fits the space of a valid waiting buffer, where each whole
-- frame of the bytes held and received is at least four bytes: with fuel above 1024 the read
-- handler ends and reads on, it has handled exactly those whole frames in order, as the
-- specification `run_frames` says, and the bytes behind the last of them stay in the buffer,
-- which is valid and waits again.
pub read_handler-Frames :
    (p : Platform) (fuel : ℕ) (xs : List ℕ) (ch : Channel) (fs : List (List ℕ)) (rest : List ℕ)
    → IsReady ch.c37_buf
    → 0 < length xs
    → ch.c37_buf.valid_buffer_bytes + length xs ≤ 1024
    → Frames (contents ch.c37_buf ++ xs) fs rest
    → 1024 < fuel
    → Delivered p fuel xs ch fs rest
unfolding read_handler
read_handler-Frames p fuel xs ch fs rest r some_bytes fits f enough =
    let b = receive xs ch.c37_buf in
    let held = contents-receive xs ch.c37_buf r.valid fits in
    let ready : IsReady b = record {
      valid = receive-IsValid xs ch.c37_buf r.valid fits;
      waiting = λ e. r.waiting (sym (buf_state-receive xs ch.c37_buf) ∙ e);
    } in
    let (last, ran, out, left, after) =
      drain-Frames p fuel (record ch { c37_buf = b }) f ready held
        (omega (arith, length-append (contents ch.c37_buf) xs, length-contents r.valid)) in
    let nonempty : (length xs == 0) ≡ false = ground arith in
    (last, rw (nonempty, ran), out, left, after)

-- A frame as the sender forms it: its size field is its length.
pub record IsFrame (f : List ℕ) : Type 0 where
  pub header : 4 ≤ length f
  pub small : length f ≤ 1024
  pub sized : frame_size f ≡ length f

abbrev pub AllFrames : List (List ℕ) → Type 0
AllFrames [] = Unit {0}
AllFrames (f ∷ fs) = IsFrame f × AllFrames fs

frame_size-append : (f ys : List ℕ) → 4 ≤ length f → frame_size (f ++ ys) ≡ frame_size f
frame_size-append f ys h =
    rw (get_or-append_left f ys 2 0 (omega arith), get_or-append_left f ys 3 0 (omega arith))

-- The frames of a stream that the sender formed are those that the receiver finds.
pub Frames-flatten :
    (fs : List (List ℕ)) (rest : List ℕ)
    → AllFrames fs
    → ¬ HasFrame rest
    → Frames (flatten fs ++ rest) fs rest
unfolding flatten
Frames-flatten [] rest a n = done n refl
Frames-flatten (f ∷ fs) rest a n =
    let ys = flatten fs ++ rest in
    let e : frame_size (f ++ ys) ≡ length f = frame_size-append f ys a.0.header ∙ a.0.sized in
    let first : Frames (f ++ ys) (take (frame_size (f ++ ys)) (f ++ ys) ∷ fs) rest =
      next (omega (arith, e, length-append f ys, a.0.header, a.0.small))
        (omega (arith, e, a.0.header))
        (rw (e, drop-append_length f ys) (Frames-flatten fs rest a.1 n)) in
    let g : take (frame_size (f ++ ys)) (f ++ ys) ≡ f = rw e (take-append_length f ys) in
    rw (append_assoc f (flatten fs) rest) (rw g at first)
