-- ===== src/Phasor/Reformat/Counted.antt =====
-- A whole synchronisation: the samples of a second are counted, and the first of the next one ends it.
use sparcs.Prelude.{
  ℕ, suc, ◌+◌, ◌%◌, ◌^◌, ◌≤◌, ◌<◌, ◌≡◌, ◌≢◌, refl, sym, ap, ◌∙◌, true, false, none, List, [], ◌∷◌,
  ◌++◌, length, arith, ==_iff,
}
use mathlib.Core.Path.{subst}
use sparcs.Phasor.Buffer.{Buffer}
use sparcs.Phasor.Reformat.{
  Reformat, State, sync_to_sec, fill_buffer, process_c37_event, step_in, sync_start, sync_count,
  event_of,
}
use sparcs.Phasor.Reformat.Sync.{process-sync_count, sync_ends}
use sparcs.Phasor.Reformat.Fill.{Event, feed, feed-append, posted_list}

-- Data events behind the first of a second. Their seconds are not looked at.
abbrev pub AllBehind : List Event → Type 0
AllBehind [] = Unit {0}
AllBehind (e ∷ es) = ((e.frac_sec ≢ 0) × (e.frame.msg_len_bytes ≡ 74)) × AllBehind es

-- A synchronisation in the second `s` that has counted `n` samples.
record Counting (s n aborts : ℕ) (r : Reformat) : Type 0 where
  state_is : r.current_state ≡ sync_to_sec
  started : r.sync_started ≡ true
  second_is : r.present_sec ≡ s
  count_is : r.sample_cnt ≡ n
  aborts_are : r.sync_to_sec_aborts ≡ aborts

step_in-sync_start :
    (s : State) (b : Buffer) (sec : ℕ) (r : Reformat)
    → s ≡ sync_to_sec
    → r.sync_started ≡ false
    → step_in s b 0 sec r ≡ (sync_start 0 sec r, none)
unfolding step_in
step_in-sync_start sync_to_sec b sec r e h = rw h
step_in-sync_start fill_buffer b sec r e h = cc

process-sync_start :
    (b : Buffer) (sec : ℕ) (r : Reformat)
    → b.msg_len_bytes ≡ 74
    → r.current_state ≡ sync_to_sec
    → r.sync_started ≡ false
    → process_c37_event 0 sec b r ≡ (sync_start 0 sec r, none)
unfolding process_c37_event
process-sync_start b sec r len e h =
    rw ((==_iff b.msg_len_bytes 74).1 len) (step_in-sync_start r.current_state b sec r e h)

sync_start-Counting :
    (sec : ℕ) (r : Reformat)
    → r.current_state ≡ sync_to_sec
    → Counting sec 1 r.sync_to_sec_aborts (sync_start 0 sec r)
unfolding sync_start
sync_start-Counting sec r e = record {
  state_is = e;
  started = refl;
  second_is = refl;
  count_is = refl;
  aborts_are = refl;
}

sync_count-Counting :
    (b : Buffer) (frac_sec sec s n aborts : ℕ) (r : Reformat)
    → frac_sec ≢ 0
    → s + 1 < 2 ^ 32
    → n < 512
    → Counting s n aborts r
    → Counting s (n + 1) aborts (sync_count b frac_sec sec r)
unfolding sync_count
sync_count-Counting b frac_sec sec s n aborts r f small fits c = record {
  state_is = ground (arith, c.state_is, c.second_is);
  started = ground (arith, c.started, c.second_is);
  second_is = ground (arith, c.second_is);
  count_is = ground (arith, c.count_is, c.second_is);
  aborts_are = ground (arith, c.aborts_are, c.second_is);
}

feed-Counting :
    (es : List Event) (s n aborts : ℕ) (r : Reformat)
    → AllBehind es
    → s + 1 < 2 ^ 32
    → n + length es ≤ 512
    → Counting s n aborts r
    → Counting s (n + length es) aborts (feed es r).0 × ((feed es r).1 ≡ [])
unfolding feed
feed-Counting [] s n aborts r a small fits c = let e : n ≡ n + 0 = omega arith in (rw e at c, refl)
feed-Counting (e ∷ es) s n aborts r a small fits c =
    let one = process-sync_count e.frame e.frac_sec e.sec r a.0.1 c.state_is c.started in
    let next =
      sync_count-Counting e.frame e.frac_sec e.sec s n aborts r a.0.0 small (omega arith) c in
    let sum : n + 1 + length es ≡ n + suc (length es) = omega arith in
    rw one (
      rw sum at (
        feed-Counting es s (n + 1) aborts (sync_count e.frame e.frac_sec e.sec r) a.1 small
          (omega arith) next))

-- An event with which a second begins.
abbrev pub first_in : ℕ → Buffer → Event
first_in s b = record { frac_sec = 0; sec = s; frame = b }

-- What a synchronisation of `n` samples from the second `s` comes to.
abbrev pub Ended : ℕ → ℕ → ℕ → Buffer → Reformat → Type 0
Ended s n aborts b q =
    (n % 10 ≡ 0
      → (q.current_state ≡ fill_buffer)
        × (q.present_sec ≡ s + 1)
        × (q.c37_event_buf ≡ event_of b ∷ [])
        × (q.current_sample_cnt ≡ 1)
        × (q.sample_cnt ≡ n))
    × (n % 10 ≢ 0
        → (q.current_state ≡ sync_to_sec)
          × (q.sync_started ≡ false)
          × (q.sync_to_sec_aborts ≡ aborts + 1))

Counting-Ended :
    (b : Buffer) (sec s n aborts : ℕ) (r : Reformat)
    → b.msg_len_bytes ≡ 74
    → s + 1 < 2 ^ 32
    → Counting s n aborts r
    → Ended s n aborts b (feed (first_in sec b ∷ []) r).0 × ((feed (first_in sec b ∷ []) r).1 ≡ [])
unfolding feed
Counting-Ended b sec s n aborts r len small c =
    let ends = sync_ends b sec r len c.state_is c.started (omega (arith, c.second_is, small)) in
    let one = process-sync_count b 0 sec r len c.state_is c.started in
    let q = (process_c37_event 0 sec b r).0 in
    (
      subst (λ s'. Ended s' n aborts b q) c.second_is
          (subst (λ n'. Ended r.present_sec n' aborts b q) c.count_is
            (subst (λ k. Ended r.present_sec r.sample_cnt k b q) c.aborts_are ends)),
      rw one refl,
    )

-- From the state that waits for a second: the first event of a second, up to 511 events behind
-- it, and the next event that is first in a second, all of 74 bytes, with the next second below
-- 2 ^ 32. Nothing is posted. If the samples counted are a multiple of ten, buffers are filled
-- from then on with this count and the last event as the first one saved, and the second taken
-- is the one after that of the first event, whatever seconds the other frames carry; if not,
-- the reformatter waits again and counts the abort.
pub feed-Ended :
    (s sec : ℕ) (a b : Buffer) (es : List Event) (r : Reformat)
    → r.current_state ≡ sync_to_sec
    → r.sync_started ≡ false
    → a.msg_len_bytes ≡ 74
    → AllBehind es
    → b.msg_len_bytes ≡ 74
    → s + 1 < 2 ^ 32
    → length es < 512
    → let q = feed (first_in s a ∷ (es ++ first_in sec b ∷ [])) r in
      Ended s (1 + length es) r.sync_to_sec_aborts b q.0 × (q.1 ≡ [])
unfolding feed
feed-Ended s sec a b es r state wait la behind lb small fits =
    let begun = process-sync_start a s r la state wait in
    let (counting, quiet) =
      feed-Counting es s 1 r.sync_to_sec_aborts (sync_start 0 s r) behind small (omega arith)
        (sync_start-Counting s r state) in
    let (ended, silent) =
      Counting-Ended b sec s (1 + length es) r.sync_to_sec_aborts (feed es (sync_start 0 s r)).0 lb
        small counting in
    let rest = es ++ first_in sec b ∷ [] in
    let started = sync_start 0 s r in
    let last = feed (first_in sec b ∷ []) (feed es started).0 in
    let path : feed (first_in s a ∷ rest) r ≡ (last.0, [] ++ last.1) =
      ap (λ p. ((feed rest p.0).0, posted_list p.1 ++ (feed rest p.0).1)) begun
      ∙ feed-append es (first_in sec b ∷ []) started
      ∙ ap (λ l. (last.0, l ++ last.1)) quiet in
    subst (λ q. Ended s (1 + length es) r.sync_to_sec_aborts b q.0 × (q.1 ≡ [])) (sym path)
      (ended, silent)
