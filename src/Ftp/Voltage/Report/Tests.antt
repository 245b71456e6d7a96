-- ===== src/Ftp/Voltage/Report/Tests.antt =====
-- Reports of two events, with and without those at the borders of the window.
use sparcs.Prelude.{ℕ, ◌+◌, ◌≡◌, refl, true, false, some, List, [], ◌∷◌}
use sparcs.Prelude.Ints.{pos}
use sparcs.Ftp.Voltage.{Event, voltage_sag}
use sparcs.Ftp.Voltage.Report.{chosen}

abbrev event : ℕ → Event
event n = record { start = pos n; label = voltage_sag; end = pos (n + 4) }

abbrev events : List Event
events = event 30 ∷ event 20 ∷ event 10 ∷ []

both : chosen false false 2 events ≡ some (event 20 ∷ event 30 ∷ [])
unfolding chosen
both = refl

-- The last one goes on, and the one of the window before has ended.
shifted : chosen true true 2 events ≡ some (event 10 ∷ event 20 ∷ [])
unfolding chosen
shifted = refl
