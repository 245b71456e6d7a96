-- ===== src/Ftp/Voltage.antt =====
-- The voltage events of one phase in a window: `upmuanalyticsASU::VoltageLimitMain` of
-- ftp/serviceDataArchiverRabbitMQ/serviceDataArchiverRabbitMQ.cpp. A sample is of any type, with the
-- comparisons of `double` that the code makes. The three vectors of starts, labels and ends are one
-- list of events, the last one first. The three copies of the code for a kind of event are one
-- function of the kind.
pub mod Ending
pub mod Report
mod Tests
use sparcs.Prelude.{
  ℕ, zero, suc, ◌+◌, ◌-◌, Bool, true, false, ◌&&◌, ◌||◌, Option, none, some, List, [], ◌∷◌, length,
  get_elem?, ltb, leb, ◌==◌, if◌then◌else◌,
}
use sparcs.Prelude.Ints.{ℤ, pos, neg, ◌+ℤ◌}

pub data Kind : Type 0 where
  sag interruption swell : Kind

pub data Label : Type 0 where
  under_voltage voltage_sag sustained_interruption : Label
  short_interruption over_voltage voltage_swell : Label

pub record Event : Type 0 where
  pub start : ℤ
  pub label : Label
  pub end : ℤ

-- The comparisons with 0.1, 0.9 and 1.1.
pub record Limits {ℓ} (A : Type ℓ) : Type ℓ where
  pub lt_01 : A → Bool
  pub ge_01 : A → Bool
  pub le_09 : A → Bool
  pub gt_09 : A → Bool
  pub lt_11 : A → Bool
  pub ge_11 : A → Bool

-- `over` and `max_wdw_sag`, and the number of the window's first sample, `(kk-2)*size`.
pub record Settings : Type 0 where
  pub over : ℕ
  pub max_wdw_sag : ℕ
  pub base : ℤ

-- `k.V_r1` to `k.V_r3`, `k.tmp_V_r1` to `k.tmp_V_r3`, `last_sample_V`, the events and `report.V`.
pub record Phase : Type 0 where
  pub count : Kind → ℕ
  pub tmp : Kind → ℕ
  pub last : Kind → Bool
  pub events : List Event
  pub report : ℕ

abbrev pub same_kind : Kind → Kind → Bool
same_kind sag sag = true
same_kind interruption interruption = true
same_kind swell swell = true
same_kind _ _ = false

abbrev pub put : Kind → ℕ → (Kind → ℕ) → Kind → ℕ
put k n f k' = if same_kind k k' then n else f k'

abbrev pub long_label : Kind → Label
long_label sag = under_voltage
long_label interruption = sustained_interruption
long_label swell = over_voltage

abbrev pub short_label : Kind → Label
short_label sag = voltage_sag
short_label interruption = short_interruption
short_label swell = voltage_swell

-- Only a sag must be longer than `max_wdw_sag`.
abbrev pub is_long_enough : Settings → Kind → ℕ → Bool
is_long_enough c sag v = ltb c.max_wdw_sag v
is_long_enough c interruption v = true
is_long_enough c swell v = true

abbrev pub pop_back : List Event → List Event
pop_back [] = []
pop_back (e ∷ es) = es

abbrev pub event_at : Settings → Label → ℕ → ℕ → Event
event_at c l jj v = record {
  start = c.base +ℤ pos jj +ℤ neg v +ℤ neg 1;
  label = l;
  end = c.base +ℤ pos jj;
}

-- Behind the inner loop: the event found, if it counts.
unfoldable pub label_event : Settings → Kind → ℕ → ℕ → Phase → Phase
label_event c k jj v ph =
    if ltb c.over v
    then record ph { events = event_at c (long_label k) jj v ∷ ph.events; report = suc ph.report }
    else if is_long_enough c k v
    then (let joins = (jj + ph.tmp k == v) && ph.last k && is_long_enough c k (ph.tmp k) in
        record ph {
          events =
              event_at c (short_label k) jj v ∷ (if joins then pop_back ph.events else ph.events);
          report = suc ph.report;
        })
    else ph

-- And what is kept for the next window.
unfoldable pub keep_count : Settings → ℕ → Kind → ℕ → ℕ → Phase → Phase
keep_count c len k jj v ph =
    if (jj == len) && ltb 0 v && leb v c.over
    then record ph { last = same_kind k; tmp = put k v ph.tmp; count = put k v ph.count }
    else record ph { count = put k 0 ph.count }

module _ {ℓ} {A : Type ℓ} where
  abbrev pub inside : Limits A → Kind → A → Bool
  inside l sag x = l.ge_01 x && l.le_09 x
  inside l interruption x = l.lt_01 x
  inside l swell x = l.ge_11 x

  -- The chain of tests on a sample.
  abbrev pub kind_of : Limits A → A → Option Kind
  kind_of l x =
      if inside l sag x
      then some sag
      else if inside l interruption x
      then some interruption
      else if inside l swell x
      then some swell
      else none

  -- The inner loop, from the sample `jj` on: the samples that are left, their number, and the count.
  abbrev pub run : (A → Bool) → ℕ → List A → ℕ → ℕ → List A × ℕ × ℕ
  run in_event over [] jj v = ([], jj, v)
  run in_event over (x ∷ xs) jj v =
      let on = run in_event over xs (suc jj) (suc v) in
      if in_event x then if ltb over (suc v) then (x ∷ xs, jj, suc v) else on else (x ∷ xs, jj, v)

  -- The outer loop; `none` without fuel.
  unfoldable pub scan : ℕ → Limits A → Settings → ℕ → List A → ℕ → Phase → Option Phase
  scan zero l c len xs jj ph = none
  scan (suc fuel) l c len [] jj ph = some ph
  scan (suc fuel) l c len (x ∷ xs) jj ph = elim (kind_of l x) [
    | none ↦ scan fuel l c len xs (suc jj) ph
    | some k ↦
        let (rest, jj', v) = run (inside l k) c.over (x ∷ xs) jj (ph.count k) in
        scan fuel l c len rest jj' (keep_count c len k jj' v (label_event c k jj' v ph))
  ]

  -- The counts that go on from the window before, by the first sample.
  abbrev pub begin_phase : Limits A → List A → Phase → Phase
  begin_phase l [] ph = ph
  begin_phase l (x ∷ xs) ph = record ph {
    count = λ k. elim k [
      | sag ↦ if l.gt_09 x || l.lt_01 x then 0 else ph.count sag
      | interruption ↦ if l.ge_01 x then 0 else ph.count interruption
      | swell ↦ if l.lt_11 x then 0 else ph.count swell
    ];
    report = 0;
  }

  -- A last sample within the limits ends what went on.
  abbrev pub end_phase : Limits A → Option A → Phase → Phase
  end_phase l none ph = ph
  end_phase l (some x) ph = if l.gt_09 x && l.lt_11 x then record ph { last = λ k. false } else ph

  -- A window of `size` samples.
  unfoldable pub voltage_limits : ℕ → Limits A → Settings → ℕ → List A → Phase → Option Phase
  voltage_limits fuel l c size input ph =
      elim (scan fuel l c (length input) input 0 (begin_phase l input ph)) [
        | none ↦ none
        | some ph' ↦ some (end_phase l (get_elem? input (size - 1)) ph')
      ]
