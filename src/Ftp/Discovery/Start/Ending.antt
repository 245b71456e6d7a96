-- ===== src/Ftp/Discovery/Start/Ending.antt =====
-- The search for a directory ends, and what it leaves.
use sparcs.Prelude.{
  ℕ, zero, suc, ◌≡◌, ◌<◌, refl, sym, ◌∙◌, Bool, true, false, not, ◌&&◌, ◌||◌, Option, none, some,
  List, [], ◌∷◌, ◌++◌, arith, if◌then◌else◌, ◌⊎◌, inl, inr,
}
use mathlib.Core.Bool.{false≢true}
use sparcs.Ftp.DataDir.{DataDir, current, proposed, Clock, inc_data_dir}
use sparcs.Ftp.Transfer.{Presence, dir_present, ftp_not_resp, dir_not_present}
use sparcs.Ftp.Discovery.{is_current}
use sparcs.Ftp.Discovery.Start.{
  Search, Site, DirEffect, dir_abandoned, take_directory, search, is_proposed, is_processed_state,
  go_on, pass_by, visit, enter, round,
}

-- The present hour is at most `n` hours ahead.
abbrev pub AtPresentWithin : ℕ → Site → DataDir → Type 0
AtPresentWithin zero u dd = ⊥
AtPresentWithin (suc n) u dd =
    ((inc_data_dir u.clock u.now dd).1 ≡ true)
    ⊎ AtPresentWithin n u ((inc_data_dir u.clock u.now dd).0)

-- The states that a search begins with.
abbrev pub IsFirst : DataDir → Type 0
IsFirst dd = ((is_current dd.state || is_proposed dd.state) || is_processed_state dd.state) ≡ true

-- Where a search may end: without a directory, or in a current one that is there.
abbrev pub IsGood : Site → Search → Type 0
IsGood u r =
    (r.data_dir_valid ≡ false)
    ⊎ ((r.data_dir.state ≡ current) × (u.presence r.data_dir.dir_name ≡ dir_present))

-- A search that has ended.
abbrev pub Ends : Site → Option Search → Type 0
Ends u none = ⊥
Ends u (some r) = IsGood u r

take_directory-IsGood :
    (u : Site) (dd : DataDir) (effects : List DirEffect)
    → (is_current dd.state || is_proposed dd.state) ≡ true
    → u.presence dd.dir_name ≡ dir_present
    → IsGood u (take_directory u dd effects)
unfolding take_directory
take_directory-IsGood u dd effects h p = ground arith

inc_data_dir-proposed :
    (c : Clock) (now : ℕ) (dd : DataDir) → (inc_data_dir c now dd).0.state ≡ proposed
unfolding inc_data_dir
inc_data_dir-proposed c now dd = refl

-- The first two states are left by an increment.
abbrev IsOpen : DataDir → Type 0
IsOpen dd = (is_current dd.state || is_proposed dd.state) ≡ true

inc_data_dir-IsOpen : (c : Clock) (now : ℕ) (dd : DataDir) → IsOpen ((inc_data_dir c now dd).0)
inc_data_dir-IsOpen c now dd = let p = inc_data_dir-proposed c now dd in rw p

go_on-Ends :
    (b : Bool) (next : DataDir → List DirEffect → Option Search) (u : Site) (dd : DataDir)
    (effects : List DirEffect)
    → (b ≡ false → Ends u (next dd effects))
    → Ends u (go_on b next dd effects)
go_on-Ends true next u dd effects h = inl refl
go_on-Ends false next u dd effects h = h refl

pass_by-Ends :
    (b : Bool) (next : DataDir → List DirEffect → Option Search) (u : Site) (dd : DataDir)
    (effects : List DirEffect)
    → ((es : List DirEffect)
        → (inc_data_dir u.clock u.now dd).1 ≡ false
        → Ends u (next ((inc_data_dir u.clock u.now dd).0) es))
    → Ends u (pass_by b next u dd effects)
pass_by-Ends true next u dd effects h = inl refl
pass_by-Ends false next u dd effects h =
    let es = if is_current dd.state then effects ++ dir_abandoned dd ∷ [] else effects in
    go_on-Ends ((inc_data_dir u.clock u.now dd).1) next u ((inc_data_dir u.clock u.now dd).0) es
      (h es)

visit-Ends :
    (p : Presence) (next : DataDir → List DirEffect → Option Search) (u : Site) (dd : DataDir)
    (effects : List DirEffect)
    → u.presence dd.dir_name ≡ p
    → IsOpen dd
    → ((es : List DirEffect)
        → (inc_data_dir u.clock u.now dd).1 ≡ false
        → Ends u (next ((inc_data_dir u.clock u.now dd).0) es))
    → Ends u (visit p next u dd effects)
visit-Ends ftp_not_resp next u dd effects e o h = inl refl
visit-Ends dir_present next u dd effects e o h = take_directory-IsGood u dd effects o e
visit-Ends dir_not_present next u dd effects e o h =
    pass_by-Ends (is_current dd.state && not u.abandon_ok) next u dd effects h

later :
    (n : ℕ) (u : Site) (dd : DataDir)
    → AtPresentWithin n u dd
    → (inc_data_dir u.clock u.now dd).1 ≡ false
    → (m : ℕ) × ((n ≡ suc m) × AtPresentWithin m u ((inc_data_dir u.clock u.now dd).0))
later zero u dd a e = absurd a
later (suc n) u dd (inl p) e = absurd (false≢true (sym e ∙ p))
later (suc n) u dd (inr a) e = (n, (refl, a))

enter-Ends :
    (b : Bool) (next : DataDir → List DirEffect → Option Search) (u : Site) (dd : DataDir)
    (effects : List DirEffect)
    → IsOpen dd
    → ((es : List DirEffect)
        → b ≡ false
        → (inc_data_dir u.clock u.now dd).1 ≡ false
        → Ends u (next ((inc_data_dir u.clock u.now dd).0) es))
    → Ends u (enter b next u dd effects)
enter-Ends true next u dd effects o h = inl refl
enter-Ends false next u dd effects o h =
    visit-Ends (u.presence dd.dir_name) next u dd effects refl o (λ es. h es refl)

open_of_first : (x y z : Bool) → ((x || y) || z) ≡ true → z ≡ false → (x || y) ≡ true
open_of_first x y z h e = ground arith

first_of_open : (x y z : Bool) → (x || y) ≡ true → ((x || y) || z) ≡ true
first_of_open x y z h = ground arith

inc-IsFirst : (c : Clock) (now : ℕ) (dd : DataDir) → IsFirst ((inc_data_dir c now dd).0)
inc-IsFirst c now dd =
    let s = (inc_data_dir c now dd).0.state in
    first_of_open (is_current s) (is_proposed s) (is_processed_state s)
      (inc_data_dir-IsOpen c now dd)

round-Ends :
    (b : Bool) (next : DataDir → List DirEffect → Option Search) (n : ℕ) (u : Site) (dd : DataDir)
    (effects : List DirEffect)
    → is_processed_state dd.state ≡ b
    → AtPresentWithin n u dd
    → IsFirst dd
    → ((m : ℕ) (dd' : DataDir) (es : List DirEffect)
        → m < n
        → AtPresentWithin m u dd'
        → IsFirst dd'
        → Ends u (next dd' es))
    → Ends u (round b next u dd effects)
round-Ends false next n u dd effects e a f ih =
    visit-Ends (u.presence dd.dir_name) next u dd effects refl
      (open_of_first (is_current dd.state) (is_proposed dd.state) (is_processed_state dd.state) f e)
      (λ es at.
        let (m, (k, a')) = later n u dd a at in
        ih m ((inc_data_dir u.clock u.now dd).0) es (omega arith) a' (inc-IsFirst u.clock u.now dd))
round-Ends true next n u dd effects e a f ih =
    let dd' = (inc_data_dir u.clock u.now dd).0 in
    enter-Ends ((inc_data_dir u.clock u.now dd).1) next u dd' effects
      (inc_data_dir-IsOpen u.clock u.now dd)
      (λ es at at'.
        let (m, (k, a')) = later n u dd a at in
        let (m', (k', a'')) = later m u dd' a' at' in
        ih m' ((inc_data_dir u.clock u.now dd').0) es (omega arith) a''
          (inc-IsFirst u.clock u.now dd'))

-- The loop of `getCurrentDirectory` from a current, proposed or processed directory, where one
-- of the next `n` steps of an hour reaches the present hour: with more than `n` rounds it has
-- ended, and either there is no valid directory, or the directory is current and the uPMU has
-- it.
pub search-Ends :
    (fuel n : ℕ) (u : Site) (dd : DataDir) (effects : List DirEffect)
    → n < fuel
    → AtPresentWithin n u dd
    → IsFirst dd
    → Ends u (search fuel u dd effects)
unfolding search
search-Ends zero n u dd effects q a f = absurd (omega arith)
search-Ends (suc fuel) n u dd effects q a f =
    round-Ends (is_processed_state dd.state) (search fuel u) n u dd effects refl a f
      (λ m dd' es l a' f'. search-Ends fuel m u dd' es (omega arith) a' f')
