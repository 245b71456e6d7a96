-- ===== src/Reader/Server/Tests.antt =====
-- Requests for one and for two devices, of which the database knows one.
use sparcs.Prelude.{
  ℕ, ◌+◌, ◌/◌, ◌≡◌, refl, true, false, none, some, List, [], ◌∷◌, ltb, if◌then◌else◌, replicate,
}
use sparcs.Prelude.Ints.{pos}
use sparcs.Prelude.Text.{codes, same_string}
use sparcs.Reader.Response.{SampleOps}
use sparcs.Reader.Request.{Fields, Window, received, parse_fields, split, stoi}
use sparcs.Reader.Server.{Rows, error_code, socket_handler, code_packet, code_received}
use sparcs.Reader.Server.Codes.{socket_handler-code_received}
use sparcs.Reader.Server.Devices.{answered, Says, reply_for, reply_of-Says}

abbrev ops : SampleOps ℕ
ops = record { lt = ltb; add = ◌+◌; over = ◌/◌ }

abbrev query : List ℕ → Window → Rows ℕ
query d w =
    if same_string d (codes "P1") then some ((5000, (λ c. 4) ∷ (λ c. 6) ∷ []) ∷ []) else none

abbrev request : List ℕ
request = codes "1;P2;1;1000;2000;1;0;0;0;0;0;0;0;0;0;0;0;16;1"

-- The device is not known.
unknown_device : socket_handler ops ◌+◌ query true 0 request ≡ error_code 4
unfolding socket_handler received parse_fields split stoi
unknown_device = refl

no_cassandra : socket_handler ops ◌+◌ query false 0 request ≡ error_code 3
unfolding socket_handler
no_cassandra = refl

socket_handler-code_received_example : code_received (code_packet 4 (7 ∷ 7 ∷ [])) ≡ some 4
socket_handler-code_received_example =
    socket_handler-code_received ops ◌+◌ query true 0 request (7 ∷ 7 ∷ []) 4 unknown_device

abbrev fields : Fields
fields = record {
  devices = codes "P2" ∷ codes "P1" ∷ [];
  nosamplesets = pos 1;
  timestampstart = codes "1000";
  timestampend = codes "2000";
  requested = true ∷ replicate 11 false;
  compression_method = pos 16;
  stepsize = pos 1;
}

abbrev window : Window
window = record { day = pos 0 ∷ []; timestamp_from = 1; timestamp_end = codes "2000"; skip = 0 }

reply_of-Says_example :
    Says ops ◌+◌ query fields window
      (codes "P2" ∷ codes "P1" ∷ [])
      (reply_for ops ◌+◌ query fields window 0 (codes "P2" ∷ codes "P1" ∷ []))
    × (answered ops ◌+◌ query fields window (codes "P2" ∷ codes "P1" ∷ []) ≡ []
        → reply_for ops ◌+◌ query fields window 0 (codes "P2" ∷ codes "P1" ∷ []) ≡ error_code 4)
reply_of-Says_example = reply_of-Says ops ◌+◌ query fields window 0 (codes "P2") (codes "P1" ∷ [])
