-- ===== src/Ftp/Annotations.antt =====
-- The annotations that a second of data gives: the part behind the summaries of the processing of a
-- buffer in ftp/serviceDataArchiverRabbitMQ/serviceDataArchiverRabbitMQ.cpp. A message is what of its
-- content does not come from the clock or the configuration. Sending it is RabbitMQ's; a failure is
-- caught and logged. `kk` is unbounded here.
pub mod Hours
mod Tests
use sparcs.Prelude.{
  ℕ, zero, suc, ◌+◌, ◌-◌, ◌*◌, Bool, true, false, not, ◌&&◌, Option, none, some, List, [], ◌∷◌,
  ◌++◌, map, ◌==◌, if◌then◌else◌,
}
use sparcs.Prelude.Ints.{pos}
use sparcs.Ftp.Voltage.{Limits, Settings}
use sparcs.Ftp.Voltage.Report.{Entry, Tracked, voltage_limit_main}

-- The message of a new hour, of an event of the voltage, and that of an hour without one.
pub data Annotation : Type 0 where
  hourly : ℕ → Annotation
  voltage_limit : Entry → Annotation
  heartbeat : Annotation

abbrev annotations_hourly : Bool
annotations_hourly = true

-- `old_hour` and the hourly messages for `t.tm_hour`.
unfoldable pub hourly_part : ℕ → ℕ → ℕ × List Annotation
hourly_part hour old_hour =
    if annotations_hourly && not (hour == old_hour)
    then (hour, if old_hour == 0 then [] else hourly hour ∷ [])
    else (old_hour, [])

-- The heartbeat, behind the events of the voltage.
unfoldable pub heartbeat_part : ℕ → ℕ → List Annotation
heartbeat_part hour old_hour =
    if not (hour == old_hour) then (if old_hour == 0 then [] else heartbeat ∷ []) else []

-- The messages of a second whose voltage has given a report.
unfoldable pub annotate : ℕ → List Entry → ℕ → ℕ × List Annotation
unfolding hourly_part heartbeat_part
annotate hour report old_hour =
    let (old', first) = hourly_part hour old_hour in
    (old', first ++ (map voltage_limit report ++ heartbeat_part hour old'))

-- `old_hour`, `kk`, and what the analysis keeps.
pub record Annotator {ℓ} (A : Type ℓ) : Type ℓ where
  pub old_hour : ℕ
  pub kk : ℕ
  pub phases : List (Tracked A)

abbrev pub paired {ℓ κ} : {A : Type ℓ} {B : Type κ} → List A → List B → List (A × B)
paired [] bs = []
paired (a ∷ as') [] = []
paired (a ∷ as') (b ∷ bs) = (a, b) ∷ paired as' bs

-- A second: the hour, and `v_mag` of each phase.
unfoldable pub annotate_second {ℓ} :
    {A : Type ℓ}
    → ℕ
    → Limits A
    → ℕ
    → ℕ
    → ℕ
    → ℕ
    → List (List A)
    → Annotator A
    → Option (Annotator A × List Annotation)
unfolding annotate voltage_limit_main
annotate_second fuel l over max_wdw_sag size hour v_mag a =
    let kk = a.kk + 1 in
    let c : Settings = record {
      over = over;
      max_wdw_sag = max_wdw_sag;
      base = pos ((kk - 2) * size);
    } in
    elim (voltage_limit_main fuel l c size (paired a.phases v_mag)) [
      | none ↦ none
      | some (phases, report) ↦
          let (old', sent) = annotate hour report a.old_hour in
          some (record { old_hour = old'; kk = kk; phases = phases }, sent)
    ]

-- The messages of seconds in turn, each with its hour and its report.
unfoldable pub annotate_all : List (ℕ × List Entry) → ℕ → List Annotation
unfolding annotate
annotate_all [] old_hour = []
annotate_all ((hour, report) ∷ seconds) old_hour =
    let (old', sent) = annotate hour report old_hour in sent ++ annotate_all seconds old'
