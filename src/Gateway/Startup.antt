-- ===== src/Gateway/Startup.antt =====
-- The start of the gateway: `main` of uPMUgateway/main.cpp up to the start of the services, with the
-- mutex of uPMUgateway/dbConnection.cpp and the constructor and the records of
-- uPMUgateway/serviceOperationsLoggerPostgres.cpp. No other thread runs yet, so that a mutex that is
-- locked is never given back. What PostgreSQL, Cassandra, libcurl and the loader of libraries answer
-- are arguments. The logger keeps no state, so one that could not be created acts as any other.
pub mod Serial
pub mod Locked
mod Tests
use sparcs.Prelude.{
  ℕ, zero, suc, ◌+◌, ◌-◌, ◌^◌, ◌%◌, Bool, true, false, ◌&&◌, Option, none, some, List, [], ◌∷◌,
  ◌++◌, length, take, drop, ltb, ◌==◌, if◌then◌else◌, u32,
}
use mathlib.Core.Option
use sparcs.Prelude.Text.{codes}
use sparcs.Gateway.Registry.{ServiceRow, register_all, start_order}

-- `exits` is `exit`, `throws` an exception that nobody catches, `blocks` a `lock` that waits for ever.
pub data Run {ℓ} (A : Type ℓ) : Type ℓ where
  goes : A → Run A
  exits throws blocks : Run A

infixl 5 ◌>>=◌
abbrev pub ◌>>=◌ {ℓ κ} : {A : Type ℓ} {B : Type κ} → Run A → (A → Run B) → Run B
goes a >>= f = f a
exits >>= f = exits
throws >>= f = throws
blocks >>= f = blocks

-- `acquireDBaccess`, for a mutex that is held or not.
unfoldable pub acquire_db_access : Bool → Run Bool
acquire_db_access true = blocks
acquire_db_access false = goes true

-- `releaseDBaccess`
abbrev pub release_db_access : Bool → Bool
release_db_access held = false

-- A query: it throws, or it has rows, each of them `none` where a field cannot be read, and the
-- `commit` behind it throws or not.
pub data Query {ℓ} (A : Type ℓ) : Type ℓ where
  refused : Query A
  answered : List (Option A) → Bool → Query A

-- What the code finds that wants one row: `row`, another number of rows, or an exception.
pub data OneRow {ℓ} (A : Type ℓ) : Type ℓ where
  row : A → OneRow A
  several failed : OneRow A

unfoldable pub one_row {ℓ} : {A : Type ℓ} → Query A → OneRow A
one_row refused = failed
one_row (answered [] commits) = several
one_row (answered (none ∷ []) commits) = failed
one_row (answered (some a ∷ []) commits) = if commits then row a else failed
one_row (answered (a ∷ b ∷ rows) commits) = several

-- The Cassandra server: whether the session connects, and which of the five statements it prepares.
pub record Server : Type 0 where
  pub connects : Bool
  pub prepares : ℕ → Bool

-- `cassandraConnect() >= 0`
abbrev pub cassandra_connect : Server → Bool
cassandra_connect s =
    s.connects && s.prepares 0 && s.prepares 1 && s.prepares 2 && s.prepares 3 && s.prepares 4

-- `cassandraInit` behind the lock: whether the mutex is held afterwards, and `cassConnected`. A row
-- is its `archiving_enabled`.
abbrev pub cassandra_read : Server → OneRow Bool → Bool × Bool
cassandra_read s (row enabled) = (false, enabled && cassandra_connect s)
cassandra_read s several = (true, false)
cassandra_read s failed = (true, false)

unfoldable pub cassandra_init : Server → Query Bool → Bool → Run (Bool × Bool)
unfolding acquire_db_access one_row
cassandra_init s config held = do
  h ← acquire_db_access held
  goes (cassandra_read s (one_row config))

-- The row of `ftp_comm` is an address, which only libcurl uses.
abbrev pub ftp_read : OneRow (List ℕ) → Run Bool
ftp_read (row address) = goes false
ftp_read several = exits
ftp_read failed = throws

unfoldable pub read_ftp_comm : Query (List ℕ) → Bool → Run Bool
unfolding acquire_db_access one_row
read_ftp_comm comm held = do h ← acquire_db_access held; ftp_read (one_row comm)

-- The first place of a text in another, `none` for `npos`.
abbrev pub starts_with : List ℕ → List ℕ → Bool
starts_with [] s = true
starts_with (t ∷ ts) [] = false
starts_with (t ∷ ts) (c ∷ cs) = (t == c) && starts_with ts cs

abbrev pub find : List ℕ → List ℕ → Option ℕ
find t [] = if starts_with t [] then some 0 else none
find t (c ∷ cs) =
    let rest = Option.map suc (find t cs) in if starts_with t (c ∷ cs) then some 0 else rest

-- `find(t, from)`, of a text that is not empty.
abbrev pub find_from : List ℕ → List ℕ → ℕ → Option ℕ
find_from t s from = Option.map (λ n. from + n) (find t (drop from s))

-- A sum of `size_t`.
abbrev pub word : ℕ → ℕ
word n = n % 2 ^ 64

-- A place as a `size_t`.
abbrev pub place : Option ℕ → ℕ
place none = 2 ^ 64 - 1
place (some n) = n

-- `substr`
abbrev pub substr : List ℕ → ℕ → ℕ → Run (List ℕ)
substr s from count = if ltb (length s) from then throws else goes (take count (drop from s))

abbrev pub tag0 : List ℕ
tag0 = codes "PQube 3 Serial Number:"

abbrev pub tag1 : List ℕ
tag1 = codes "<TD>"

abbrev pub tag2 : List ℕ
tag2 = codes "</TD>"

-- What the page of the uPMU says.
unfoldable pub serial_of : List ℕ → Run (List ℕ)
serial_of page =
    let label_pos = place (find tag0 page) in
    let start_pos = place (find_from tag1 page (word (label_pos + 1))) in
    let end_pos = place (find_from tag2 page (word (start_pos + 1))) in
    substr page (word (start_pos + 4)) (word (end_pos + 2 ^ 64 + 2 ^ 64 - start_pos - 4))

-- `getUPMUSerialNumber`, for what libcurl left in `chunk.memory`, `none` where it failed.
abbrev pub get_upmu_serial_number : Option (List ℕ) → Run (List ℕ)
get_upmu_serial_number none = goes []
get_upmu_serial_number (some page) = serial_of page

-- The one round of the loop that tries to connect: at its end the flag is set whatever was found.
unfoldable pub probe : Bool → Option (List ℕ) → Run (List ℕ)
probe true page = get_upmu_serial_number page
probe false page = goes []

-- `createStringOperationsRecord`: a failure is caught, and the mutex released.
unfoldable pub create_string_operations_record : Bool → Run Bool
unfolding acquire_db_access
create_string_operations_record held = do h ← acquire_db_access held; goes (release_db_access h)

-- The greatest session of the table: no row, a null, or a number.
abbrev pub next_session : List (Option ℕ) → ℕ
next_session [] = 0
next_session (none ∷ rows) = 1
next_session (some n ∷ rows) = u32 (n + 1)

unfoldable pub get_latest_session_id : Query ℕ → Bool → Run (ℕ × Bool)
unfolding acquire_db_access
get_latest_session_id refused held = acquire_db_access held >>= λ h. throws
get_latest_session_id (answered rows commits) held = do
  h ← acquire_db_access held
  if commits then goes (next_session rows, release_db_access h) else throws

-- What the start meets: the connection, the answers to its queries, whether the probe over libcurl
-- works and the page of the uPMU.
pub record World : Type 0 where
  pub connected : Bool
  pub config : Query Bool
  pub server : Server
  pub comm : Query (List ℕ)
  pub probe_ok : Bool
  pub page : Option (List ℕ)
  pub sessions : Query ℕ
  pub service_rows : Query ServiceRow

-- The gateway when the threads are started: in which order they are, too.
pub record Started : Type 0 where
  pub held : Bool
  pub cass_connected : Bool
  pub upmu_serial_number : List ℕ
  pub session_id : ℕ
  pub services : List (List ℕ)

module _ {ℓ} {S : Type ℓ} (import_alias : List ℕ → List ℕ → Option S) where
  abbrev pub services_read : Query ServiceRow → Run (List (List ℕ))
  services_read refused = throws
  services_read (answered rows commits) =
      if commits then goes (start_order (register_all import_alias rows [])) else throws

  unfoldable pub main : World → Run Started
  unfolding acquire_db_access cassandra_init read_ftp_comm probe get_latest_session_id
      create_string_operations_record
  main w =
      if w.connected
      then (do
        h0 ← acquire_db_access false
        (h1, connected) ← cassandra_init w.server w.config (release_db_access h0)
        h2 ← read_ftp_comm w.comm h1
        serial ← probe w.probe_ok w.page
        (session, h3) ← get_latest_session_id w.sessions h2
        h4 ← create_string_operations_record h3
        h5 ← create_string_operations_record h4
        h6 ← create_string_operations_record h5
        h7 ← acquire_db_access h6
        names ← services_read w.service_rows
        goes record {
          held = release_db_access h7;
          cass_connected = connected;
          upmu_serial_number = serial;
          session_id = session;
          services = names;
        })
      else exits
