-- ===== src/Gateway/Startup/Locked.antt =====
-- When the start of the gateway waits for ever: what becomes of the mutex of the database.
use sparcs.Prelude.{
  ℕ, ◌≡◌, refl, sym, ap, ◌∙◌, ◌≢◌, ◌↔◌, ◌⊎◌, inl, inr, Bool, true, false, Option, none, some, List,
  [], ◌∷◌, if◌then◌else◌, Bool-cases,
}
use sparcs.Gateway.Registry.{ServiceRow}
use sparcs.Gateway.Startup.{
  Run, goes, exits, throws, blocks, ◌>>=◌, Query, refused, answered, OneRow, row, several, failed,
  one_row, acquire_db_access, cassandra_read, cassandra_init, read_ftp_comm, ftp_read, Server,
  serial_of, probe, create_string_operations_record, get_latest_session_id, services_read, World,
  Started, main,
}

-- An outcome that is not `blocks`, with a result of a kind.
data Within {ℓ} {A : Type ℓ} (P : A → Type 0) : Run A → Type ℓ where
  goes_in : {a : A} → P a → Within P (goes a)
  ends : Within P exits
  fails : Within P throws

bind-Within {ℓ κ} :
    {A : Type ℓ} {B : Type κ} {P : A → Type 0} {Q : B → Type 0} {m : Run A} (f : A → Run B)
    → Within P m
    → ((a : A) → P a → Within Q (f a))
    → Within Q (m >>= f)
bind-Within f (goes_in {a} h) k = k a h
bind-Within f ends k = ends
bind-Within f fails k = fails

goes_on {ℓ} : {A : Type ℓ} {P : A → Type 0} {o : Run A} → Within P o → o ≢ blocks
goes_on (goes_in h) e = cc
goes_on ends e = cc
goes_on fails e = cc

abbrev IsFree : Bool → Type 0
IsFree held = held ≡ false

abbrev Anything {ℓ} : {A : Type ℓ} → A → Type 0
Anything a = Unit

acquire-Within : {held : Bool} → IsFree held → Within Anything (acquire_db_access held)
unfolding acquire_db_access
acquire-Within {held = true} h = cc
acquire-Within {held = false} h = goes_in tt

ftp_read-Within : (r : OneRow (List ℕ)) → Within IsFree (ftp_read r)
ftp_read-Within (row x) = goes_in refl
ftp_read-Within several = ends
ftp_read-Within failed = fails

ftp-Within :
    (comm : Query (List ℕ)) {held : Bool} → IsFree held → Within IsFree (read_ftp_comm comm held)
unfolding read_ftp_comm
ftp-Within comm h = bind-Within _ (acquire-Within h) (λ a p. ftp_read-Within (one_row comm))

branch-Within {ℓ} :
    {A : Type ℓ} {P : A → Type 0} (b : Bool) {o p : Run A}
    → Within P o
    → Within P p
    → Within P (if b then o else p)
branch-Within true h k = h
branch-Within false h k = k

probe-Within : (ok : Bool) (page : Option (List ℕ)) → Within Anything (probe ok page)
unfolding probe serial_of
probe-Within true none = goes_in tt
probe-Within true (some page) = branch-Within _ fails (goes_in tt)
probe-Within false page = goes_in tt

session-Within :
    (a : Query ℕ) {held : Bool}
    → IsFree held
    → Within (λ r. IsFree r.1) (get_latest_session_id a held)
unfolding get_latest_session_id
session-Within refused h = bind-Within _ (acquire-Within h) (λ a p. fails)
session-Within (answered rows commits) h =
    bind-Within _ (acquire-Within h) (λ a p. branch-Within commits (goes_in refl) fails)

record-Within : {held : Bool} → IsFree held → Within IsFree (create_string_operations_record held)
unfolding create_string_operations_record
record-Within h = bind-Within _ (acquire-Within h) (λ a p. goes_in refl)

-- One row that can be read, and a query that ends well.
abbrev pub IsUsable : Query Bool → Type 0
IsUsable config = (enabled : Bool) × (config ≡ answered (some enabled ∷ []) true)

-- The mutex is held behind every other answer.
config_cases :
    (s : Server) (c : Query Bool)
    → IsUsable c ⊎ ((¬ IsUsable c) × (cassandra_read s (one_row c) ≡ (true, false)))
unfolding one_row
config_cases s refused = inr (λ u. cc, refl)
config_cases s (answered [] commits) = inr (λ u. cc, refl)
config_cases s (answered (none ∷ []) commits) = inr (λ u. cc, refl)
config_cases s (answered (some a ∷ []) true) = inl (a, refl)
config_cases s (answered (some a ∷ []) false) = inr (λ u. cc, refl)
config_cases s (answered (a ∷ b ∷ rows) commits) = inr (λ u. cc, refl)

usable-IsFree : (s : Server) (c : Query Bool) → IsUsable c → IsFree (cassandra_read s (one_row c)).0
unfolding one_row
usable-IsFree s c (enabled, e) = ap (λ a. (cassandra_read s (one_row a)).0) e

module _ {ℓ} {S : Type ℓ} (import_alias : List ℕ → List ℕ → Option S) where
  services-Within : (a : Query ServiceRow) → Within Anything (services_read import_alias a)
  services-Within refused = fails
  services-Within (answered rows commits) = branch-Within commits (goes_in tt) fails

  main-Within :
      (w : World) → w.connected ≡ true → IsUsable w.config → Within Anything (main import_alias w)
  unfolding main cassandra_init acquire_db_access
  main-Within w c u = rw c (
      bind-Within _ (ftp-Within w.comm (usable-IsFree w.server w.config u)) (λ h2 p2.
        bind-Within _ (probe-Within w.probe_ok w.page) (λ serial p.
          bind-Within _ (session-Within w.sessions p2) (λ r p3.
            bind-Within _ (record-Within p3) (λ h4 p4. bind-Within _ (record-Within p4) (λ h5 p5.
              bind-Within _ (record-Within p5) (λ h6 p6. bind-Within _ (acquire-Within p6) (λ h7 p7.
                bind-Within _ (services-Within w.service_rows) (λ names q. goes_in tt)))))))))

  main_held :
      (w : World)
      → w.connected ≡ true
      → cassandra_read w.server (one_row w.config) ≡ (true, false)
      → main import_alias w ≡ blocks
  unfolding main cassandra_init read_ftp_comm acquire_db_access
  main_held w c e = rw (c, e) refl

  main_unconnected : (w : World) → w.connected ≡ false → main import_alias w ≡ exits
  unfolding main
  main_unconnected w c = rw c refl

  -- Whatever PostgreSQL, Cassandra, the uPMU and the loader of libraries answer: the start of
  -- the gateway waits for ever if and only if the database is connected and the table of
  -- Cassandra does not give exactly one row that can be read in a query that ends well.
  pub main-blocks :
      (w : World) → (main import_alias w ≡ blocks) ↔ ((w.connected ≡ true) × (¬ IsUsable w.config))
  main-blocks w = (there, back)
    where
      exits_not : ¬ (◌≡◌ {A = Run Started} exits blocks)
      exits_not e = cc

      there : main import_alias w ≡ blocks → (w.connected ≡ true) × (¬ IsUsable w.config)
      there e = elim (Bool-cases w.connected) [
        | inl c ↦ (c, λ u. goes_on (main-Within w c u) e)
        | inr c ↦ absurd (exits_not (sym (main_unconnected w c) ∙ e))
      ]

      back : (w.connected ≡ true) × (¬ IsUsable w.config) → main import_alias w ≡ blocks
      back (c, n) = elim (config_cases w.server w.config) [
        | inl u ↦ absurd (n u)
        | inr (_, held) ↦ main_held w c held
      ]
