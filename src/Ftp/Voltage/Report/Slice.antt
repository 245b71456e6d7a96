-- ===== src/Ftp/Voltage/Report/Slice.antt =====
-- Which events a report has: the newest ones, but for the last where it goes on, and with the one of
-- the window before where that has ended.
use sparcs.Prelude.{ℕ, Bool, true, false, List}

-- How many events are left out at the end, and how many are taken over from before.
abbrev pub one_if : Bool → ℕ
one_if true = 1
one_if false = 0
