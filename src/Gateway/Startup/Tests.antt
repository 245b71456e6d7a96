-- ===== src/Gateway/Startup/Tests.antt =====
-- A gateway that starts, one that waits for ever, and pages of the uPMU.
use sparcs.Prelude.{
  ℕ, ◌≡◌, ◌↔◌, refl, Bool, true, false, Option, none, some, List, [], ◌∷◌, ◌++◌, arith,
}
use sparcs.Prelude.Text.{codes}
use sparcs.Gateway.Registry.{register_all, start_order}
use sparcs.Gateway.Startup.{
  goes, blocks, Query, answered, World, main, acquire_db_access, cassandra_init, one_row,
  read_ftp_comm, probe, serial_of, create_string_operations_record, get_latest_session_id, tag0,
  tag1, tag2,
}
use sparcs.Gateway.Startup.Locked.{IsUsable, main-blocks}
use sparcs.Gateway.Startup.Serial.{serial_of_lem}

abbrev before_label : List ℕ
before_label = codes "<TR><TD>"

abbrev behind : List ℕ
behind = codes "</TD>"

abbrev number : List ℕ
number = codes "P3001065"

abbrev page : List ℕ
page = before_label ++ (tag0 ++ (behind ++ (tag1 ++ (number ++ (tag2 ++ codes "</TR>")))))

abbrev no_services : List ℕ → List ℕ → Option ℕ
no_services path implementation = none

-- A start for one answer of the table `cassandra`.
abbrev with_config : Query Bool → World
with_config config = record {
  connected = true;
  config = config;
  server = record { connects = true; prepares = λ n. true };
  comm = answered (some (codes "192.168.1.197") ∷ []) true;
  probe_ok = true;
  page = some page;
  sessions = answered (some 41 ∷ []) true;
  service_rows = answered [] true;
}

started :
    main no_services (with_config (answered (some true ∷ []) true))
    ≡ goes record {
      held = false;
      cass_connected = true;
      upmu_serial_number = number;
      session_id = 42;
      services = [];
    }
unfolding main acquire_db_access cassandra_init one_row read_ftp_comm probe serial_of
    create_string_operations_record get_latest_session_id register_all start_order
started = refl

-- A page without the label gives what stands on it, but for three characters.
unlabelled : serial_of (codes "Not found") ≡ goes (codes " found")
unfolding serial_of
unlabelled = refl

main-blocks_example :
    (main no_services (with_config (answered [] true)) ≡ blocks)
    ↔ ((true ≡ true) × (¬ IsUsable (answered [] true)))
main-blocks_example = main-blocks no_services (with_config (answered [] true))

serial_of_lem_example : serial_of page ≡ goes number
serial_of_lem_example =
    serial_of_lem before_label behind number (codes "</TR>") refl refl refl (omega arith)
