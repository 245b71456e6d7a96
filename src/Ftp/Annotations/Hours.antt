-- ===== src/Ftp/Annotations/Hours.antt =====
-- Which messages go out, in what order: the hours, the events, and the heartbeats.
use sparcs.Prelude.{
  ℕ, ◌+◌, ◌≡◌, refl, ap, ◌∙◌, Bool, true, false, List, [], ◌∷◌, ◌++◌, map, ◌==◌, if◌then◌else◌,
  arith, Bool-cases, inl, inr,
}
use mathlib.Core.List.{append_assoc, append-nil}
use sparcs.Ftp.Voltage.Report.{Entry}
use sparcs.Ftp.Annotations.{
  Annotation, hourly, voltage_limit, heartbeat, hourly_part, heartbeat_part, annotate, annotate_all,
}

-- The hours that are told, the events, and the number of heartbeats.
abbrev pub hours_told : List Annotation → List ℕ
hours_told [] = []
hours_told (hourly h ∷ ms) = h ∷ hours_told ms
hours_told (voltage_limit e ∷ ms) = hours_told ms
hours_told (heartbeat ∷ ms) = hours_told ms

abbrev pub events_told : List Annotation → List Entry
events_told [] = []
events_told (hourly h ∷ ms) = events_told ms
events_told (voltage_limit e ∷ ms) = e ∷ events_told ms
events_told (heartbeat ∷ ms) = events_told ms

abbrev pub heartbeats : List Annotation → ℕ
heartbeats [] = 0
heartbeats (hourly h ∷ ms) = heartbeats ms
heartbeats (voltage_limit e ∷ ms) = heartbeats ms
heartbeats (heartbeat ∷ ms) = 1 + heartbeats ms

-- The hours that differ from the one before them, unless that is 0.
abbrev pub changes : ℕ → List ℕ → List ℕ
changes before [] = []
changes before (h ∷ hs) =
    (if h == before then [] else if before == 0 then [] else h ∷ []) ++ changes h hs

abbrev pub all_events : List (ℕ × List Entry) → List Entry
all_events [] = []
all_events ((h, es) ∷ seconds) = es ++ all_events seconds

hours_told-append :
    (ms ns : List Annotation) → hours_told (ms ++ ns) ≡ hours_told ms ++ hours_told ns
hours_told-append [] ns = refl
hours_told-append (hourly h ∷ ms) ns = ap (◌∷◌ h) (hours_told-append ms ns)
hours_told-append (voltage_limit e ∷ ms) ns = hours_told-append ms ns
hours_told-append (heartbeat ∷ ms) ns = hours_told-append ms ns

events_told-append :
    (ms ns : List Annotation) → events_told (ms ++ ns) ≡ events_told ms ++ events_told ns
events_told-append [] ns = refl
events_told-append (hourly h ∷ ms) ns = events_told-append ms ns
events_told-append (voltage_limit e ∷ ms) ns = ap (◌∷◌ e) (events_told-append ms ns)
events_told-append (heartbeat ∷ ms) ns = events_told-append ms ns

heartbeats-append :
    (ms ns : List Annotation) → heartbeats (ms ++ ns) ≡ heartbeats ms + heartbeats ns
heartbeats-append [] ns = omega arith
heartbeats-append (hourly h ∷ ms) ns = heartbeats-append ms ns
heartbeats-append (voltage_limit e ∷ ms) ns = heartbeats-append ms ns
heartbeats-append (heartbeat ∷ ms) ns = omega (arith, heartbeats-append ms ns)

hours_told-events : (es : List Entry) → hours_told (map voltage_limit es) ≡ []
hours_told-events [] = refl
hours_told-events (e ∷ es) = hours_told-events es

events_told-events : (es : List Entry) → events_told (map voltage_limit es) ≡ es
events_told-events [] = refl
events_told-events (e ∷ es) = ap (◌∷◌ e) (events_told-events es)

heartbeats-events : (es : List Entry) → heartbeats (map voltage_limit es) ≡ 0
heartbeats-events [] = refl
heartbeats-events (e ∷ es) = heartbeats-events es

-- A new hour, or none.
abbrev told : Bool → Bool → ℕ → List Annotation
told same first hour = if same then [] else if first then [] else hourly hour ∷ []

-- The hour is kept, whatever it was, so that the second test never finds it changed.
annotate_lem :
    (hour old_hour : ℕ) (report : List Entry)
    → annotate hour report old_hour
      ≡ (hour, told (hour == old_hour) (old_hour == 0) hour ++ map voltage_limit report)
unfolding annotate hourly_part heartbeat_part
annotate_lem hour old_hour report =
    let messages = map voltage_limit report in
    let itself : hour == hour ≡ true = ground arith in
    elim (Bool-cases (hour == old_hour)) [
      | inl e ↦
          let kept : old_hour ≡ hour = ground (arith, e) in
          rw e (rw (e, append-nil messages) (λ i. (kept i, messages)))
      | inr e ↦ rw (e, itself, append-nil messages) refl
    ]

hours_told-told :
    (same first : Bool) (hour : ℕ)
    → hours_told (told same first hour) ≡ (if same then [] else if first then [] else hour ∷ [])
hours_told-told true first hour = refl
hours_told-told false true hour = refl
hours_told-told false false hour = refl

events_told-told : (same first : Bool) (hour : ℕ) → events_told (told same first hour) ≡ []
events_told-told true first hour = refl
events_told-told false true hour = refl
events_told-told false false hour = refl

heartbeats-told : (same first : Bool) (hour : ℕ) → heartbeats (told same first hour) ≡ 0
heartbeats-told true first hour = refl
heartbeats-told false true hour = refl
heartbeats-told false false hour = refl

annotate_all_step :
    (hour : ℕ) (report : List Entry) (seconds : List (ℕ × List Entry)) (old_hour : ℕ)
    → annotate_all ((hour, report) ∷ seconds) old_hour
      ≡ told (hour == old_hour) (old_hour == 0) hour
        ++ (map voltage_limit report ++ annotate_all seconds hour)
unfolding annotate_all
annotate_all_step hour report seconds old_hour =
    (λ i. let r = annotate_lem hour old_hour report i in r.1 ++ annotate_all seconds r.0)
    ∙ append_assoc (told (hour == old_hour) (old_hour == 0) hour) (map voltage_limit report)
        (annotate_all seconds hour)

-- Of the messages for any seconds, each with its hour and its report of the voltage: the hours
-- told are, in order, those that differ from the hour of the second before, unless that one is
-- 0; the events told are those of the reports in order, none lost or doubled; and no heartbeat
-- is ever sent.
pub annotate_all_lem :
    (seconds : List (ℕ × List Entry)) (old_hour : ℕ)
    → (hours_told (annotate_all seconds old_hour) ≡ changes old_hour (map (λ s. s.0) seconds))
      × (events_told (annotate_all seconds old_hour) ≡ all_events seconds)
      × (heartbeats (annotate_all seconds old_hour) ≡ 0)
unfolding annotate_all
annotate_all_lem [] old_hour = (refl, refl, refl)
annotate_all_lem ((hour, report) ∷ seconds) old_hour =
    let (hours, events, beats) = annotate_all_lem seconds hour in
    let step = annotate_all_step hour report seconds old_hour in
    let new = told (hour == old_hour) (old_hour == 0) hour in
    let messages = map voltage_limit report in
    let rest = annotate_all seconds hour in
    (
      ap hours_told step
          ∙ hours_told-append new (messages ++ rest)
          ∙ rw
              (
                hours_told-told (hour == old_hour) (old_hour == 0) hour,
                hours_told-append messages rest,
                hours_told-events report,
                hours,
              )
              refl,
      ap events_told step
          ∙ events_told-append new (messages ++ rest)
          ∙ rw
              (
                events_told-told (hour == old_hour) (old_hour == 0) hour,
                events_told-append messages rest,
                events_told-events report,
                events,
              )
              refl,
      ap heartbeats step
          ∙ heartbeats-append new (messages ++ rest)
          ∙ rw
              (
                heartbeats-told (hour == old_hour) (old_hour == 0) hour,
                heartbeats-append messages rest,
                heartbeats-events report,
                beats,
              )
              refl,
    )
