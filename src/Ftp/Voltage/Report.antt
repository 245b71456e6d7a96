-- ===== src/Ftp/Voltage/Report.antt =====
-- The report of a window: `upmuanalyticsASU::printReports`, and what `VoltageLimitMain` does behind
-- the phases, in ftp/serviceDataArchiverRabbitMQ/serviceDataArchiverRabbitMQ.cpp. The three copies
-- of the choice of events, for starts, ends and labels, are one function of the events. `none` is an
-- index outside of the vectors, where `at` throws.
pub mod Slice
mod Tests
use sparcs.Prelude.{
  ℕ, zero, suc, ◌+◌, ◌-◌, Bool, true, false, ◌&&◌, ◌||◌, Option, none, some, List, [], ◌∷◌, ◌++◌,
  length, map, get_elem?, ltb, leb, ◌==◌, if◌then◌else◌,
}
use mathlib.Core.List.{reverse}
use sparcs.Prelude.Ints.{ℤ}
use sparcs.Ftp.Voltage.{
  Kind, sag, interruption, swell, Label, Event, Limits, Settings, Phase, voltage_limits,
}

-- A window ends within an event that was labelled.
unfoldable pub ends_labelled : Settings → Phase → Bool
ends_labelled c ph =
    (ph.last sag && ltb c.max_wdw_sag (ph.tmp sag)) || ph.last interruption || ph.last swell

-- `last_window_rep.V` and `last_window_val.V` of a phase.
pub record Before {ℓ} (A : Type ℓ) : Type ℓ where
  pub rep : Bool
  pub val : A

module _ {ℓ} {A : Type ℓ} where
  -- The labelled event at the end of the window before does not go on: `first` is `input[ii][0]`.
  unfoldable pub broken_off : Limits A → Before A → A → Bool
  broken_off l b first =
      b.rep
      && ((l.lt_01 b.val && l.ge_01 first)
          || (l.ge_01 b.val && l.le_09 b.val && l.lt_01 first)
          || (l.ge_01 b.val && l.le_09 b.val && l.gt_09 first)
          || (l.ge_11 b.val && l.lt_11 first))

-- `at(from)` to `at(from+count-1)`.
unfoldable pub at_each : List Event → ℕ → ℕ → Option (List Event)
at_each es from zero = some []
at_each es from (suc count) = elim (get_elem? es from) [
  | none ↦ none
  | some e ↦ elim (at_each es (suc from) count) [ none ↦ none | some rest ↦ some (e ∷ rest) ]
]

-- `count` events from the place `size() - k` on. The first of them throws where there is no such place.
unfoldable pub at_back : List Event → ℕ → ℕ → Option (List Event)
unfolding at_each
at_back es k zero = some []
at_back es k (suc count) =
    if ltb (length es) k then none else at_each es (length es - k) (suc count)

-- The four branches; the events stand with the last one first.
unfoldable pub chosen : Bool → Bool → ℕ → List Event → Option (List Event)
unfolding at_back
chosen true true report events = at_back (reverse events) (suc report) report
chosen true false report events = at_back (reverse events) report (report - 1)
chosen false true report events = at_back (reverse events) (suc report) (suc report)
chosen false false report events = at_back (reverse events) report report

-- `makereport` of each chosen event, with the number of the phase.
pub record Entry : Type 0 where
  pub phase : ℕ
  pub event : Event
  pub severity : ℕ

abbrev pub entries : ℕ → List Event → List Entry
entries phase [] = []
entries phase (e ∷ es) = record { phase = phase; event = e; severity = 10 } ∷ entries phase es

-- A phase of the analysis, with what the window before left.
pub record Tracked {ℓ} (A : Type ℓ) : Type ℓ where
  pub state : Phase
  pub before : Before A

module _ {ℓ} {A : Type ℓ} where
  -- The vectors of all phases are filled before the first report is made.
  unfoldable pub print_reports :
      Limits A → Settings → ℕ → List (Tracked A × A) → Option (List Entry)
  unfolding chosen ends_labelled broken_off
  print_reports l c phase [] = some []
  print_reports l c phase ((t, first) ∷ ts) =
      elim (chosen (ends_labelled c t.state) (broken_off l t.before first) t.state.report
        t.state.events) [
          | none ↦ none
          | some es ↦ elim (print_reports l c (suc phase) ts) [
            | none ↦ none
            | some rest ↦ some (entries phase es ++ rest)
          ]
        ]

  -- The test in front of `printReports`: something was found, or goes on from the window before.
  abbrev pub found : List (Tracked A × A) → Bool
  found [] = false
  found ((t, first) ∷ ts) = let rest = found ts in ltb 0 t.state.report || t.before.rep || rest

  -- What is kept for the next window: `last` is `input[ii][Len-1]`.
  abbrev pub tracked : Settings → Phase → A → Tracked A
  tracked c ph last = record {
    state = ph;
    before = record { rep = ends_labelled c ph; val = last };
  }

  -- The first and the last sample of a window that is not empty.
  abbrev pub borders : List A → Option (A × A)
  borders [] = none
  borders (x ∷ []) = some (x, x)
  borders (x ∷ y ∷ ys) = elim (borders (y ∷ ys)) [ none ↦ none | some (a, b) ↦ some (x, b) ]

  -- The phases of a window in turn; `none` where a window is empty, or without fuel.
  unfoldable pub analyse_phases :
      ℕ → Limits A → Settings → ℕ → List (Tracked A × List A) → Option (List (Tracked A × A × A))
  unfolding voltage_limits
  analyse_phases fuel l c size [] = some []
  analyse_phases fuel l c size ((t, input) ∷ ts) = elim (borders input) [
    | none ↦ none
    | some (first, last) ↦ elim (voltage_limits fuel l c size input t.state) [
      | none ↦ none
      | some ph ↦ elim (analyse_phases fuel l c size ts) [
        | none ↦ none
        | some rest ↦ some ((record t { state = ph }, first, last) ∷ rest)
      ]
    ]
  ]

  abbrev pub with_first : Tracked A × A × A → Tracked A × A
  with_first r = (r.0, r.1)

  -- The whole of `VoltageLimitMain`: the phases as they are kept, and the entries of the report.
  unfoldable pub voltage_limit_main :
      ℕ
      → Limits A
      → Settings
      → ℕ
      → List (Tracked A × List A)
      → Option (List (Tracked A) × List Entry)
  unfolding analyse_phases print_reports
  voltage_limit_main fuel l c size inputs = elim (analyse_phases fuel l c size inputs) [
    | none ↦ none
    | some rs ↦
        let seen = map with_first rs in
        elim (if found seen then print_reports l c 0 seen else some []) [
          | none ↦ none
          | some es ↦ some (map (λ r. tracked c r.0.state r.2) rs, es)
        ]
  ]
