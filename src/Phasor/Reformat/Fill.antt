-- ===== src/Phasor/Reformat/Fill.antt =====
-- A second of data in `case fillBuffer`: which events are saved, and the buffer that is posted.
use sparcs.Prelude.{
  ℕ, suc, ◌+◌, ◌-◌, ◌≤◌, length-append, ◌*◌, ◌^◌, ◌<◌, ◌≡◌, ◌≢◌, refl, ◌∙◌, sym, Option, some, none,
  List, [], ◌∷◌, ◌++◌, map, arith, ◌==◌, ==_iff, u16, u32, if◌then◌else◌, length, le_bytes,
}
use mathlib.Core.List.{append_assoc, append-nil, flatten}
use sparcs.Phasor.Buffer.{Buffer}
use sparcs.Phasor.Reformat.Block.{length-block_of}
use sparcs.Phasor.Reformat.{
  Reformat, State, sync_to_sec, fill_buffer, SecBuffer, process_c37_event, step_in, fill_step,
  event_of, block_of, end_of_second,
}

-- A call of `processC37event`.
pub record Event : Type 0 where
  pub frac_sec : ℕ
  pub sec : ℕ
  pub frame : Buffer

abbrev pub posted_list : Option SecBuffer → List SecBuffer
posted_list none = []
posted_list (some b) = b ∷ []

-- Several calls, and what they post.
unfoldable pub feed : List Event → Reformat → Reformat × List SecBuffer
feed [] r = (r, [])
feed (e ∷ es) r =
    let (q, posted) = process_c37_event e.frac_sec e.sec e.frame r in
    let (last, more) = feed es q in (last, posted_list posted ++ more)

-- Data events of the second `s`, behind its first.
abbrev pub AllIn : ℕ → List Event → Type 0
AllIn s [] = Unit {0}
AllIn s (e ∷ es) = ((e.sec ≡ s) × (e.frac_sec ≢ 0) × (e.frame.msg_len_bytes ≡ 74)) × AllIn s es

abbrev pub saved : List Event → List (List ℕ)
saved = map λ e. event_of e.frame

abbrev Filling : ℕ → Reformat → Type 0
Filling s r = (r.current_state ≡ fill_buffer) × (r.present_sec ≡ s)

-- What an event within the second leaves.
abbrev pub appended : Buffer → Reformat → Reformat
appended b r = record r {
  c37_event_buf = r.c37_event_buf ++ event_of b ∷ [];
  current_sample_cnt = u16 (r.current_sample_cnt + 1);
}

step_in-fill :
    (s : State) (b : Buffer) (frac_sec sec : ℕ) (r : Reformat)
    → s ≡ fill_buffer
    → step_in s b frac_sec sec r ≡ fill_step b frac_sec sec r
unfolding step_in
step_in-fill fill_buffer b frac_sec sec r e = refl
step_in-fill sync_to_sec b frac_sec sec r e = cc

process-fill :
    (b : Buffer) (frac_sec sec : ℕ) (r : Reformat)
    → b.msg_len_bytes ≡ 74
    → r.current_state ≡ fill_buffer
    → process_c37_event frac_sec sec b r ≡ fill_step b frac_sec sec r
unfolding process_c37_event
process-fill b frac_sec sec r len e =
    rw ((==_iff b.msg_len_bytes 74).1 len) (step_in-fill r.current_state b frac_sec sec r e)

fill_step_within :
    (b : Buffer) (frac_sec : ℕ) (r : Reformat)
    → frac_sec ≢ 0
    → fill_step b frac_sec r.present_sec r ≡ (appended b r, none)
unfolding fill_step
fill_step_within b frac_sec r n = ground arith

abbrev posted_of : Reformat → SecBuffer
posted_of r = record {
  byte_len = 60 * r.sample_cnt + 4;
  bytes = le_bytes (60 * r.sample_cnt + 4) ++ flatten (map block_of r.c37_event_buf);
}

fill_step_next :
    (b : Buffer) (sec : ℕ) (r : Reformat)
    → sec ≡ u32 (r.present_sec + 1)
    → fill_step b 0 sec r ≡ end_of_second b sec r
unfolding fill_step
fill_step_next b sec r e = ground arith

-- The events of one second, behind its first, are all saved, in order; nothing is posted.
pub feed-AllIn :
    (s : ℕ) (es : List Event) (r : Reformat)
    → r.current_state ≡ fill_buffer
    → r.present_sec ≡ s
    → r.current_sample_cnt < 2 ^ 16
    → AllIn s es
    → feed es r ≡ (
      record r {
        c37_event_buf = r.c37_event_buf ++ saved es;
        current_sample_cnt = u16 (r.current_sample_cnt + length es);
      },
      [],
    )
unfolding feed
feed-AllIn s [] r f p c a =
    let same : u16 (r.current_sample_cnt + 0) ≡ r.current_sample_cnt = omega arith in
    rw (append-nil, same)
feed-AllIn s (e ∷ es) r f p c a =
    let one : process_c37_event e.frac_sec e.sec e.frame r ≡ (appended e.frame r, none) =
      process-fill e.frame e.frac_sec e.sec r a.0.2 f
      ∙ rw (a.0.0 ∙ sym p) (fill_step_within e.frame e.frac_sec r a.0.1) in
    let count : u16 (u16 (r.current_sample_cnt + 1) + length es)
        ≡ u16 (r.current_sample_cnt + suc (length es)) =
      omega arith in
    rw (one, feed-AllIn s es (appended e.frame r) f p (omega arith) a.1, append_assoc, count)

pub feed-append :
    (es fs : List Event) (r : Reformat)
    → feed (es ++ fs) r ≡ ((feed fs (feed es r).0).0, (feed es r).1 ++ (feed fs (feed es r).0).1)
unfolding feed
feed-append [] fs r = refl
feed-append (e ∷ es) fs r =
    let q = process_c37_event e.frac_sec e.sec e.frame r in
    rw (feed-append es fs q.0, append_assoc (posted_list q.1) (feed es q.0).1)

abbrev pub first_of_next : ℕ → Buffer → Event
first_of_next s b = record { frac_sec = 0; sec = s + 1; frame = b }

-- The first event of the next second, after the saved ones.
end_of_second_posts :
    (b : Buffer) (s : ℕ) (r : Reformat)
    → r.current_state ≡ fill_buffer
    → r.present_sec ≡ s
    → s + 1 < 2 ^ 32
    → b.msg_len_bytes ≡ 74
    → let q = feed (first_of_next s b ∷ []) r in
      (q.1 ≡ posted_of r ∷ [])
      × (q.0.c37_event_buf ≡ event_of b ∷ [])
      × (q.0.present_sec ≡ s + 1)
      × (q.0.current_sample_cnt ≡ 1)
      × (q.0.current_state ≡ fill_buffer)
      × (q.0.missing_c37_events
          ≡ r.missing_c37_events + (if r.current_sample_cnt == r.sample_cnt then 0 else 1))
unfolding feed end_of_second
end_of_second_posts b s r f p small len =
    let next : s + 1 ≡ u32 (r.present_sec + 1) = omega arith in
    rw (process-fill b 0 (s + 1) r len f ∙ fill_step_next b (s + 1) r next)
      (refl, refl, refl, refl, f, refl)

-- Saved events that have all the bytes that a block is made of.
abbrev pub AllWhole : List (List ℕ) → Type 0
AllWhole [] = Unit {0}
AllWhole (x ∷ xs) = (64 ≤ length x) × AllWhole xs

length-blocks :
    (xs : List (List ℕ)) → AllWhole xs → length (flatten (map block_of xs)) ≡ 60 * length xs
unfolding flatten
length-blocks [] a = refl
length-blocks (x ∷ xs) (h, a) = omega (
  arith,
  length-append (block_of x) (flatten (map block_of xs)),
  length-block_of x h,
  length-blocks xs a,
)

-- While buffers are filled, events of 74 bytes within the present second, followed by the first
-- event of the next one, with no more events than the samples synchronised on, each saved with
-- all bytes that a block needs: exactly one buffer is posted, with the announced length and the
-- blocks of all saved events in order; what is written of it is that length less 60 bytes for
-- each sample without an event; the new event opens the next buffer, and a count of samples
-- other than the one synchronised on adds one to the missing events. The count is below 2 ^ 16
-- and the next second below 2 ^ 32.
pub second_posted :
    (s : ℕ) (es : List Event) (b : Buffer) (r : Reformat)
    → r.current_state ≡ fill_buffer
    → r.present_sec ≡ s
    → r.current_sample_cnt < 2 ^ 16
    → AllIn s es
    → s + 1 < 2 ^ 32
    → b.msg_len_bytes ≡ 74
    → length (r.c37_event_buf ++ saved es) ≤ r.sample_cnt
    → AllWhole (r.c37_event_buf ++ saved es)
    → let events = r.c37_event_buf ++ saved es in
      let q = feed (es ++ first_of_next s b ∷ []) r in
      let len = 60 * r.sample_cnt + 4 in
      let bytes = le_bytes len ++ flatten (map block_of events) in
      (q.1 ≡ record { byte_len = len; bytes = bytes } ∷ [])
      × (length bytes + 60 * (r.sample_cnt - length events) ≡ len)
      × (q.0.c37_event_buf ≡ event_of b ∷ [])
      × (q.0.present_sec ≡ s + 1)
      × (q.0.current_sample_cnt ≡ 1)
      × (q.0.current_state ≡ fill_buffer)
      × (q.0.missing_c37_events
          ≡ r.missing_c37_events
            + (if u16 (r.current_sample_cnt + length es) == r.sample_cnt then 0 else 1))
second_posted s es b r f p c a small len fit whole =
    let within = feed-AllIn s es r f p c a in
    let events = r.c37_event_buf ++ saved es in
    let size = 60 * r.sample_cnt + 4 in
    let written : length (le_bytes size ++ flatten (map block_of events))
          + 60 * (r.sample_cnt - length events)
        ≡ size =
      omega (
        arith,
        length-append (le_bytes size) (flatten (map block_of events)),
        length-blocks events whole,
        fit,
      ) in
    rw (feed-append es (first_of_next s b ∷ []) r, within)
      (let (posted, saved_now, sec, count, state, missed) =
          end_of_second_posts b s
            (record r {
              c37_event_buf = r.c37_event_buf ++ saved es;
              current_sample_cnt = u16 (r.current_sample_cnt + length es);
            })
            f p small len in
        (posted, written, saved_now, sec, count, state, missed))
