-- ===== src/Ftp/Annotations/Tests.antt =====
-- Seconds around midnight and noon, and a second with an event.
use sparcs.Prelude.{ℕ, ◌≡◌, refl, false, Option, some, none, List, [], ◌∷◌, map, ltb, leb}
use sparcs.Prelude.Ints.{pos}
use sparcs.Ftp.Voltage.{Limits, voltage_sag, keep_count, label_event, scan, voltage_limits}
use sparcs.Ftp.Voltage.Report.{
  Entry, Tracked, ends_labelled, broken_off, at_each, at_back, chosen, print_reports,
  analyse_phases, voltage_limit_main,
}
use sparcs.Ftp.Annotations.{
  Annotation, hourly, voltage_limit, Annotator, hourly_part, heartbeat_part, annotate,
  annotate_second, annotate_all,
}
use sparcs.Ftp.Annotations.Hours.{
  hours_told, events_told, heartbeats, changes, all_events, annotate_all_lem,
}

abbrev sag_of : ℕ → Entry
sag_of n = record {
  phase = n;
  event = record { start = pos 0; label = voltage_sag; end = pos 5 };
  severity = 10;
}

abbrev hundredths : Limits ℕ
hundredths = record {
  lt_01 = λ x. ltb x 10;
  ge_01 = λ x. leb 10 x;
  le_09 = λ x. leb x 90;
  gt_09 = λ x. ltb 90 x;
  lt_11 = λ x. ltb x 110;
  ge_11 = λ x. leb 110 x;
}

abbrev quiet : Tracked ℕ
quiet = record {
  state = record { count = λ k. 0; tmp = λ k. 0; last = λ k. false; events = []; report = 0 };
  before = record { rep = false; val = 0 };
}

abbrev messages_of : Option (Annotator ℕ × List Annotation) → List Annotation
messages_of none = []
messages_of (some r) = r.1

-- A sag in the second of the three phases, in the first second of a new hour.
second_with_sag :
    messages_of (
      annotate_second 20 hundredths 7200 3 8 12
        ((100 ∷ 100 ∷ []) ∷ (100 ∷ 80 ∷ 80 ∷ 80 ∷ 80 ∷ 100 ∷ []) ∷ (100 ∷ 100 ∷ []) ∷ [])
        (record { old_hour = 11; kk = 1; phases = quiet ∷ quiet ∷ quiet ∷ [] }))
    ≡ hourly 12 ∷ voltage_limit (sag_of 1) ∷ []
unfolding annotate_second voltage_limit_main analyse_phases print_reports voltage_limits scan
    label_event keep_count annotate hourly_part heartbeat_part chosen at_back at_each ends_labelled
    broken_off
second_with_sag = refl

abbrev seconds : List (ℕ × List Entry)
seconds = (23, sag_of 0 ∷ []) ∷ (23, []) ∷ (0, sag_of 1 ∷ sag_of 2 ∷ []) ∷ (1, []) ∷ (2, []) ∷ []

-- The first hour is not told, and neither is the one behind midnight.
told_hours : hours_told (annotate_all seconds 0) ≡ 0 ∷ 2 ∷ []
unfolding annotate_all
told_hours = refl

annotate_all_lem_example :
    (hours_told (annotate_all seconds 0) ≡ changes 0 (map (λ s. s.0) seconds))
    × (events_told (annotate_all seconds 0) ≡ all_events seconds)
    × (heartbeats (annotate_all seconds 0) ≡ 0)
annotate_all_lem_example = annotate_all_lem seconds 0
