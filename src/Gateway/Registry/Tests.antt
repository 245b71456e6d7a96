-- ===== src/Gateway/Registry/Tests.antt =====
-- A table of four services: one cannot be loaded, one is there twice.
use sparcs.Prelude.{
  ℕ, ◌≡◌, ◌≤◌, refl, ◌⊎◌, true, false, Option, none, some, List, [], ◌∷◌, ◌++◌, if◌then◌else◌,
}
use sparcs.Prelude.Ints.{pos}
use sparcs.Prelude.Text.{codes, same_string}
use sparcs.Ftp.FileList.{contains}
use sparcs.Gateway.Registry.{ServiceRow, discovery, register_all, names, start_order}
use sparcs.Gateway.Registry.Order.{occurrences, registered, start_order-registered}

-- A library is loaded where its path is that of releases; its thread is a number here.
abbrev loaded : List ℕ → List ℕ → Option ℕ
loaded path implementation = if same_string path (codes "/lib") then some 7 else none

abbrev row : List ℕ → List ℕ → Option ServiceRow
row name mode = some record {
  service_name = name;
  service_implementation = codes "plugin.so";
  service_exec_mode = mode;
  service_debug_lib_path = codes "/debug";
  service_lib_path = codes "/lib";
  service_accepts_data = true;
  service_queue_depth = pos 16;
  service_mask = pos 0;
}

abbrev table : List (Option ServiceRow)
table =
    row discovery (codes "run")
    ∷ row (codes "serviceDataArchiver") (codes "run")
    ∷ none
    ∷ row (codes "serviceZ") (codes "run")
    ∷ row (codes "serviceX") (codes "debug")
    ∷ row (codes "serviceZ") (codes "run")
    ∷ []

registered_rows :
    names (registered loaded table)
    ≡ codes "serviceDataArchiver" ∷ discovery ∷ codes "serviceZ" ∷ []
unfolding register_all
registered_rows = refl

started_rows :
    start_order (registered loaded table)
    ≡ codes "serviceDataArchiver" ∷ codes "serviceZ" ∷ discovery ∷ []
unfolding register_all start_order
started_rows = refl

start_order-registered_example :
    ((n : List ℕ)
      → (occurrences n (start_order (registered loaded table))
          ≡ occurrences n (names (registered loaded table)))
        × (occurrences n (names (registered loaded table)) ≤ 1))
    × ((front : List (List ℕ)) × (back : List (List ℕ)) × (start_order (registered loaded table)
          ≡ front ++ back)
        × (contains discovery front ≡ false)
        × ((back ≡ []) ⊎ (back ≡ discovery ∷ [])))
start_order-registered_example = start_order-registered loaded table
