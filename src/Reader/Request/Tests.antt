-- ===== src/Reader/Request/Tests.antt =====
-- A request for two devices, the days of a query, and texts that are refused.
use sparcs.Prelude.{
  ℕ, ◌-◌, ◌/◌, ◌≤◌, ◌<◌, ◌≡◌, refl, Bool, true, false, List, [], ◌∷◌, replicate, arith,
}
use sparcs.Prelude.Ints.{ℤ, pos, negsuc}
use sparcs.Prelude.Text.{codes, to_string}
use sparcs.Reader.Client.Loop.{data_to_transmit}
use sparcs.Reader.Request.{
  ok, invalid_argument, out_of_range, stoi, read_u64, split, parse_fields, received, window_of,
  parse_request,
}
use sparcs.Reader.Request.Days.{Listed, Between, window_of-Listed}
use sparcs.Reader.Request.RoundTrip.{asked, meant, parse_request-data_to_transmit}

abbrev flags : List Bool
flags = true ∷ true ∷ replicate 9 false

signs :
    (stoi (codes " -12;") ≡ ok (negsuc 11))
    × (stoi (codes "+7") ≡ ok (pos 7))
    × (stoi (codes "2147483648") ≡ out_of_range)
    × (stoi (codes "x") ≡ invalid_argument)
unfolding stoi
signs = (refl, refl, refl, refl)

unsigned_time : (read_u64 (codes "-1") ≡ 18446744073709551615) × (read_u64 (codes "") ≡ 0)
unfolding read_u64
unsigned_time = (refl, refl)

-- An empty field stays, and an empty last one does not.
split_empty : split (codes "a;;b;") ≡ codes "a" ∷ [] ∷ codes "b" ∷ []
unfolding split
split_empty = refl

-- A semicolon behind the last device shifts the fields behind it.
shifted : parse_request (codes "1;P1;;1;1000;2000;1;1;1;1;1;1;1;1;1;1;1;1;16;1") ≡ invalid_argument
unfolding parse_request received parse_fields split stoi
shifted = refl

too_few : parse_request (codes "1;P1;1") ≡ out_of_range
unfolding parse_request received parse_fields split stoi
too_few = refl

parse_request-data_to_transmit_example :
    parse_request (
      data_to_transmit
        (asked (codes "P3001199") (codes "P3001035" ∷ []) true flags 2 15 2000)
        1480355400000
        1480356100000)
    ≡ ok (
      meant
          (codes "P3001199" ∷ codes "P3001035" ∷ [])
          (true ∷ flags)
          2
          15
          2000
          1480355400000
          1480356100000,
      window_of (to_string 1480355400000) (to_string 1480356100000),
    )
unfolding data_to_transmit to_string
parse_request-data_to_transmit_example =
    parse_request-data_to_transmit (codes "P3001199") (codes "P3001035" ∷ []) true flags 2 15 2000
      1480355400000 1480356100000 (omega arith) (omega arith) (omega arith) (omega arith) refl
      (omega arith) (omega arith) (omega arith)

window_of-Listed_example :
    ((window_of (to_string 1480355400000) (to_string 1480456100000)).timestamp_from
      ≡ 1480355400000 - 999)
    × ((t : ℕ)
        → 1480355400000 - 999 ≤ t
        → t < 1480456100000
        → Listed
            (pos (t / 86400000))
            (window_of (to_string 1480355400000) (to_string 1480456100000)).day)
    × ((d : ℤ)
        → Listed d (window_of (to_string 1480355400000) (to_string 1480456100000)).day
        → Between ((1480355400000 - 999) / 86400000) (1480456100000 / 86400000) d)
window_of-Listed_example =
    window_of-Listed 1480355400000 1480456100000 (omega arith) (omega arith) (omega arith)
