-- ===== src/Gateway/Registry.antt =====
-- The services of the gateway: uPMUgateway/serviceInstanceList.cpp, and the parts of
-- uPMUgateway/main.cpp that read the table of services and start their threads. What
-- `boost::dll::import_alias` loads is an argument, `none` where it throws. A `std::map` is a list in
-- the order of its keys. A row is `none` where a field cannot be read.
pub mod Order
mod Tests
use sparcs.Prelude.{
  ℕ, ◌+◌, Bool, true, false, Option, none, some, List, [], ◌∷◌, ◌++◌, map, if◌then◌else◌,
}
use sparcs.Prelude.Ints.{ℤ}
use sparcs.Prelude.Text.{codes, same_string}
use sparcs.Ftp.FileList.{string_less, contains}

pub record ServiceInstance {ℓ} (S : Type ℓ) : Type ℓ where
  pub service_name : List ℕ
  pub service_implementation : List ℕ
  pub service_lib_path : List ℕ
  pub service_accepts_data : Bool
  pub service_mask : ℤ
  pub service_queue_depth : ℤ
  pub service_thread : S

-- The fields of a row of the table `service`.
pub record ServiceRow : Type 0 where
  pub service_name : List ℕ
  pub service_implementation : List ℕ
  pub service_exec_mode : List ℕ
  pub service_debug_lib_path : List ℕ
  pub service_lib_path : List ℕ
  pub service_accepts_data : Bool
  pub service_queue_depth : ℤ
  pub service_mask : ℤ

abbrev pub lib_path : ServiceRow → List ℕ
lib_path r =
    if same_string r.service_exec_mode (codes "debug")
    then r.service_debug_lib_path
    else r.service_lib_path

-- The service that is started last.
abbrev pub discovery : List ℕ
discovery = codes "serviceDataDiscovery"

module _ {ℓ} {S : Type ℓ} where
  -- `services.insert(std::make_pair(name, si))`: a name that is there keeps its service.
  unfoldable pub insert_service :
      ServiceInstance S → List (ServiceInstance S) → List (ServiceInstance S)
  insert_service si [] = si ∷ []
  insert_service si (x ∷ xs) =
      let rest = insert_service si xs in
      if string_less si.service_name x.service_name
      then si ∷ x ∷ xs
      else if string_less x.service_name si.service_name
      then x ∷ rest
      else x ∷ xs

  abbrev pub instance_of : ServiceRow → S → ServiceInstance S
  instance_of r s = record {
    service_name = r.service_name;
    service_implementation = r.service_implementation;
    service_lib_path = lib_path r;
    service_accepts_data = r.service_accepts_data;
    service_mask = r.service_mask;
    service_queue_depth = r.service_queue_depth;
    service_thread = s;
  }

  module _ (import_alias : List ℕ → List ℕ → Option S) where
    -- `createServiceInstance`, behind the constructor; `none` throws.
    unfoldable pub create_service_instance :
        ServiceRow → List (ServiceInstance S) → Option (List (ServiceInstance S))
    unfolding insert_service
    create_service_instance r services = elim (import_alias (lib_path r) r.service_implementation) [
      | none ↦ none
      | some s ↦ some (insert_service (instance_of r s) services)
    ]

    -- A row whose service cannot be made is logged and passed over.
    abbrev pub register_row :
        Option ServiceRow → List (ServiceInstance S) → List (ServiceInstance S)
    register_row none services = services
    register_row (some r) services = elim (create_service_instance r services) [
      | none ↦ services
      | some services' ↦ services'
    ]

    unfoldable pub register_all :
        List (Option ServiceRow) → List (ServiceInstance S) → List (ServiceInstance S)
    unfolding create_service_instance
    register_all [] services = services
    register_all (r ∷ rs) services = register_all rs (register_row r services)

  abbrev pub names : List (ServiceInstance S) → List (List ℕ)
  names services = map (λ si. si.service_name) services

-- The names but that of the service that is started last.
abbrev pub others : List (List ℕ) → List (List ℕ)
others [] = []
others (n ∷ ns) = let rest = others ns in if same_string n discovery then rest else n ∷ rest

-- The names of the services in the order in which `main` starts their threads.
unfoldable pub start_order {ℓ} : {S : Type ℓ} → List (ServiceInstance S) → List (List ℕ)
start_order services =
    let ns = names services in others ns ++ (if contains discovery ns then discovery ∷ [] else [])
