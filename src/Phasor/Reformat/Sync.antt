-- ===== src/Phasor/Reformat/Sync.antt =====
-- Synchronisation to the second, `case syncToSec`, and what holds while buffers are filled.
use sparcs.Prelude.{
  ℕ, ◌+◌, ◌%◌, ◌^◌, ◌<◌, ◌≡◌, ◌≢◌, refl, true, false, none, [], ◌∷◌, arith, ◌==◌, Bool-cases, inl,
  inr, Option-cases, ==_iff, not, ◌&&◌, u32,
}
use sparcs.Phasor.Buffer.{Buffer}
use sparcs.Phasor.Reformat.{
  Reformat, State, sync_to_sec, fill_buffer, process_c37_event, new_reformat, step_in, sync_count,
  fill_step, fill_confused, find_frac_sec, event_of, abort_sync,
}

sync_in_ignores :
    (s : State) (b : Buffer) (frac_sec sec sec' : ℕ) (r : Reformat)
    → s ≡ sync_to_sec
    → r.sync_started ≡ true
    → step_in s b frac_sec sec r ≡ step_in s b frac_sec sec' r
unfolding step_in
sync_in_ignores sync_to_sec b frac_sec sec sec' r e h = rw h
sync_in_ignores fill_buffer b frac_sec sec sec' r e h = cc

-- Once a synchronisation has started, and until it ends, the second that a frame carries makes
-- no difference to the reformatter.
pub sync_ignores_sec :
    (b : Buffer) (frac_sec sec sec' : ℕ) (r : Reformat)
    → r.current_state ≡ sync_to_sec
    → r.sync_started ≡ true
    → process_c37_event frac_sec sec b r ≡ process_c37_event frac_sec sec' b r
unfolding process_c37_event
sync_ignores_sec b frac_sec sec sec' r e h =
    rw (sync_in_ignores r.current_state b frac_sec sec sec' r e h)

step_in-sync_count :
    (s : State) (b : Buffer) (frac_sec sec : ℕ) (r : Reformat)
    → s ≡ sync_to_sec
    → r.sync_started ≡ true
    → step_in s b frac_sec sec r ≡ (sync_count b frac_sec sec r, none)
unfolding step_in
step_in-sync_count sync_to_sec b frac_sec sec r e h = rw h
step_in-sync_count fill_buffer b frac_sec sec r e h = cc

pub process-sync_count :
    (b : Buffer) (frac_sec sec : ℕ) (r : Reformat)
    → b.msg_len_bytes ≡ 74
    → r.current_state ≡ sync_to_sec
    → r.sync_started ≡ true
    → process_c37_event frac_sec sec b r ≡ (sync_count b frac_sec sec r, none)
unfolding process_c37_event
process-sync_count b frac_sec sec r len e h =
    rw ((==_iff b.msg_len_bytes 74).1 len) (step_in-sync_count r.current_state b frac_sec sec r e h)

sync_count_accepts :
    (b : Buffer) (sec : ℕ) (r : Reformat)
    → r.present_sec + 1 < 2 ^ 32
    → r.sample_cnt % 10 ≡ 0
    → let q = sync_count b 0 sec r in
      (q.current_state ≡ fill_buffer)
      × (q.present_sec ≡ r.present_sec + 1)
      × (q.c37_event_buf ≡ event_of b ∷ [])
      × (q.current_sample_cnt ≡ 1)
      × (q.sample_cnt ≡ r.sample_cnt)
unfolding sync_count
sync_count_accepts b sec r small ten = ground arith

sync_count_refuses :
    (b : Buffer) (sec : ℕ) (r : Reformat)
    → r.present_sec + 1 < 2 ^ 32
    → r.sample_cnt % 10 ≢ 0
    → sync_count b 0 sec r ≡ abort_sync r
unfolding sync_count
sync_count_refuses b sec r small ten = ground arith

-- What the event behind the counted ones does.
pub sync_ends :
    (b : Buffer) (sec : ℕ) (r : Reformat)
    → b.msg_len_bytes ≡ 74
    → r.current_state ≡ sync_to_sec
    → r.sync_started ≡ true
    → r.present_sec + 1 < 2 ^ 32
    → let q = (process_c37_event 0 sec b r).0 in
      (r.sample_cnt % 10 ≡ 0
        → (q.current_state ≡ fill_buffer)
          × (q.present_sec ≡ r.present_sec + 1)
          × (q.c37_event_buf ≡ event_of b ∷ [])
          × (q.current_sample_cnt ≡ 1)
          × (q.sample_cnt ≡ r.sample_cnt))
      × (r.sample_cnt % 10 ≢ 0
          → (q.current_state ≡ sync_to_sec)
            × (q.sync_started ≡ false)
            × (q.sync_to_sec_aborts ≡ r.sync_to_sec_aborts + 1))
sync_ends b sec r len e h small = rw (process-sync_count b 0 sec r len e h) (
  λ ten. sync_count_accepts b sec r small ten,
  λ other. rw (sync_count_refuses b sec r small other) (e, refl, refl),
)

-- While buffers are filled, the number of samples in a second is a multiple of ten.
abbrev pub IsSynced : Reformat → Type 0
IsSynced r = r.current_state ≡ fill_buffer → (r.sample_cnt % 10 ≡ 0) × (r.sample_cnt_valid ≡ true)

sync_step-IsSynced :
    (b : Buffer) (frac_sec sec : ℕ) (r : Reformat)
    → r.current_state ≡ sync_to_sec
    → IsSynced (step_in sync_to_sec b frac_sec sec r).0
unfolding step_in
sync_step-IsSynced b frac_sec sec r e = ground arith

fill_confused-IsSynced :
    (frac_sec sec : ℕ) (r : Reformat) → IsSynced r → IsSynced (fill_confused frac_sec sec r)
unfolding fill_confused
fill_confused-IsSynced frac_sec sec r v =
    elim (Option-cases (find_frac_sec r.sample_cnt 0 frac_sec r.frac_sec_values)) [
      | inl e ↦ rw (e, fill_confused) (λ q. cc)
      | inr (i, e) ↦ rw (e, fill_confused) v
    ]

fill_step-IsSynced :
    (b : Buffer) (frac_sec sec : ℕ) (r : Reformat)
    → IsSynced r
    → IsSynced (fill_step b frac_sec sec r).0
unfolding fill_step
fill_step-IsSynced b frac_sec sec r v =
    elim (Bool-cases ((sec == r.present_sec) && not (frac_sec == 0))) [
      | inl t ↦ rw t v
      | inr f ↦ elim (Bool-cases ((sec == u32 (r.present_sec + 1)) && (frac_sec == 0))) [
        | inl t ↦ rw (f, t) v
        | inr g ↦ rw (f, g) (fill_confused-IsSynced frac_sec sec r v)
      ]
    ]

step_in-IsSynced :
    (s : State) (b : Buffer) (frac_sec sec : ℕ) (r : Reformat)
    → r.current_state ≡ s
    → IsSynced r
    → IsSynced (step_in s b frac_sec sec r).0
step_in-IsSynced sync_to_sec b frac_sec sec r e v = sync_step-IsSynced b frac_sec sec r e
step_in-IsSynced fill_buffer b frac_sec sec r e v =
    unfold step_in in fill_step-IsSynced b frac_sec sec r v

-- Each event keeps this: while buffers are filled, the number of samples in a second is a
-- multiple of ten and is marked as valid.
pub process_c37_event-IsSynced :
    (b : Buffer) (frac_sec sec : ℕ) (r : Reformat)
    → IsSynced r
    → IsSynced (process_c37_event frac_sec sec b r).0
unfolding process_c37_event
process_c37_event-IsSynced b frac_sec sec r v = elim (Bool-cases (b.msg_len_bytes == 74)) [
  | inl t ↦ rw t (step_in-IsSynced r.current_state b frac_sec sec r refl v)
  | inr f ↦ rw f v
]

pub new_reformat-IsSynced : IsSynced new_reformat
unfolding new_reformat
new_reformat-IsSynced e = cc
