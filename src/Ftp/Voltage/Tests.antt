-- ===== src/Ftp/Voltage/Tests.antt =====
-- Windows of eight samples, in hundredths of the nominal voltage.
use sparcs.Prelude.{ℕ, ◌≡◌, refl, Option, some, none, List, [], ◌∷◌, ltb, leb, false, arith}
use sparcs.Prelude.Ints.{pos}
use sparcs.Ftp.Voltage.{
  Event, Limits, Settings, Phase, voltage_sag, short_interruption, label_event, keep_count, scan,
  voltage_limits,
}
use sparcs.Ftp.Voltage.Ending.{voltage_limits_end}

abbrev hundredths : Limits ℕ
hundredths = record {
  lt_01 = λ x. ltb x 10;
  ge_01 = λ x. leb 10 x;
  le_09 = λ x. leb x 90;
  gt_09 = λ x. ltb 90 x;
  lt_11 = λ x. ltb x 110;
  ge_11 = λ x. leb 110 x;
}

abbrev usual : Settings
usual = record { over = 7200; max_wdw_sag = 3; base = pos 0 }

abbrev quiet : Phase
quiet = record { count = λ k. 0; tmp = λ k. 0; last = λ k. false; events = []; report = 0 }

-- A sag of four samples is labelled, one of two is not; an interruption is.
abbrev window : List ℕ
window = 100 ∷ 80 ∷ 80 ∷ 80 ∷ 80 ∷ 100 ∷ 5 ∷ 100 ∷ []

abbrev events_of : Option Phase → List Event
events_of none = []
events_of (some ph) = ph.events

events_found :
    events_of (voltage_limits 20 hundredths usual 8 window quiet)
    ≡ record { start = pos 5; label = short_interruption; end = pos 7 }
      ∷ record { start = pos 0; label = voltage_sag; end = pos 5 }
      ∷ []
unfolding voltage_limits scan label_event keep_count
events_found = refl

voltage_limits_end_example :
    (r : Phase) × (voltage_limits 20 hundredths usual 8 window quiet ≡ some r)
voltage_limits_end_example =
    voltage_limits_end 20 hundredths usual 8 window quiet (omega arith) (omega arith)
