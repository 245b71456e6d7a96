-- ===== src/Gateway/Registry/Order.antt =====
-- The names of the services are distinct, and each service is started once, that for the discovery of
-- data last.
use sparcs.Prelude.{
  ℕ, ◌+◌, ◌≤◌, ◌≡◌, refl, ap, ◌∙◌, ◌⊎◌, inl, inr, Bool, true, false, Option, none, some, List, [],
  ◌∷◌, ◌++◌, if◌then◌else◌, arith, Bool-cases, Option-cases,
}
use sparcs.Prelude.Text.{same_string}
use sparcs.Ftp.FileList.{string_less, contains}
use sparcs.Ftp.FileList.Filter.{same_string_eq}
use sparcs.Ftp.Discovery.Sets.{same_string_sym}
use sparcs.Gateway.Registry.{
  ServiceInstance, ServiceRow, discovery, insert_service, create_service_instance, register_row,
  register_all, instance_of, lib_path, names, others, start_order,
}

less_trans :
    (a b c : List ℕ) → string_less a b ≡ true → string_less b c ≡ true → string_less a c ≡ true
less_trans [] [] c h k = cc
less_trans [] (y ∷ b) [] h k = cc
less_trans [] (y ∷ b) (z ∷ c) h k = refl
less_trans (x ∷ a) [] c h k = cc
less_trans (x ∷ a) (y ∷ b) [] h k = cc
less_trans (x ∷ a) (y ∷ b) (z ∷ c) h k = ground (arith, less_trans a b c)

less_or_same :
    (a b : List ℕ) → string_less a b ≡ false → string_less b a ≡ false → same_string a b ≡ true
less_or_same [] [] h k = refl
less_or_same [] (y ∷ b) h k = cc
less_or_same (x ∷ a) [] h k = cc
less_or_same (x ∷ a) (y ∷ b) h k = ground (arith, less_or_same a b)

less-same : (a b : List ℕ) → string_less a b ≡ true → same_string a b ≡ false
less-same [] [] h = cc
less-same [] (y ∷ b) h = refl
less-same (x ∷ a) [] h = refl
less-same (x ∷ a) (y ∷ b) h = ground (arith, less-same a b)

abbrev Below : List ℕ → List (List ℕ) → Type 0
Below a [] = Unit
Below a (b ∷ bs) = (string_less a b ≡ true) × Below a bs

abbrev Ascending : List (List ℕ) → Type 0
Ascending [] = Unit
Ascending (a ∷ as') = Below a as' × Ascending as'

Below-trans : (a b : List ℕ) (ns : List (List ℕ)) → string_less a b ≡ true → Below b ns → Below a ns
Below-trans a b [] h k = tt
Below-trans a b (c ∷ ns) h (k, ks) = (less_trans a b c h k, Below-trans a b ns h ks)

module _ {ℓ} {S : Type ℓ} where
  Below-insert_service :
      (a : List ℕ) (si : ServiceInstance S) (xs : List (ServiceInstance S))
      → string_less a si.service_name ≡ true
      → Below a (names xs)
      → Below a (names (insert_service si xs))
  unfolding insert_service
  Below-insert_service a si [] h k = (h, tt)
  Below-insert_service a si (x ∷ xs) h (k, ks) =
      elim (Bool-cases (string_less si.service_name x.service_name)) [
        | inl l ↦ rw l (h, (k, ks))
        | inr l ↦ elim (Bool-cases (string_less x.service_name si.service_name)) [
          | inl g ↦ rw (l, g) (k, Below-insert_service a si xs h ks)
          | inr g ↦ rw (l, g) (k, ks)
        ]
      ]

  insert_service-Ascending :
      (si : ServiceInstance S) (xs : List (ServiceInstance S))
      → Ascending (names xs)
      → Ascending (names (insert_service si xs))
  unfolding insert_service
  insert_service-Ascending si [] h = (tt, tt)
  insert_service-Ascending si (x ∷ xs) (b, h) =
      elim (Bool-cases (string_less si.service_name x.service_name)) [
        | inl l ↦ rw l ((l, Below-trans _ _ (names xs) l b), (b, h))
        | inr l ↦ elim (Bool-cases (string_less x.service_name si.service_name)) [
          | inl g ↦
              rw (l, g)
                (Below-insert_service x.service_name si xs g b, insert_service-Ascending si xs h)
          | inr g ↦ rw (l, g) (b, h)
        ]
      ]

  module _ (import_alias : List ℕ → List ℕ → Option S) where
    register_row-Ascending :
        (r : Option ServiceRow) (xs : List (ServiceInstance S))
        → Ascending (names xs)
        → Ascending (names (register_row import_alias r xs))
    unfolding create_service_instance
    register_row-Ascending none xs h = h
    register_row-Ascending (some r) xs h =
        elim (Option-cases (import_alias (lib_path r) r.service_implementation)) [
          | inl e ↦ rw (e, Ascending) h
          | inr (s, e) ↦ rw (e, Ascending) (insert_service-Ascending (instance_of r s) xs h)
        ]

    register_all-Ascending :
        (rs : List (Option ServiceRow)) (xs : List (ServiceInstance S))
        → Ascending (names xs)
        → Ascending (names (register_all import_alias rs xs))
    unfolding register_all
    register_all-Ascending [] xs h = h
    register_all-Ascending (r ∷ rs) xs h =
        register_all-Ascending rs (register_row import_alias r xs) (register_row-Ascending r xs h)

-- How often a name stands in a list.
abbrev pub occurrences : List ℕ → List (List ℕ) → ℕ
occurrences n [] = 0
occurrences n (m ∷ ms) = (if same_string n m then 1 else 0) + occurrences n ms

occurrences-append :
    (n : List ℕ) (ms ks : List (List ℕ))
    → occurrences n (ms ++ ks) ≡ occurrences n ms + occurrences n ks
occurrences-append n [] ks = omega arith
occurrences-append n (m ∷ ms) ks = omega (arith, occurrences-append n ms ks)

occurrences-Below : (n : List ℕ) (ms : List (List ℕ)) → Below n ms → occurrences n ms ≡ 0
occurrences-Below n [] h = refl
occurrences-Below n (m ∷ ms) (l, h) = rw (less-same n m l) (omega (arith, occurrences-Below n ms h))

-- Distinct names: each is there once or not at all.
occurrences-Ascending :
    (n : List ℕ) (ms : List (List ℕ))
    → Ascending ms
    → occurrences n ms ≡ (if contains n ms then 1 else 0)
occurrences-Ascending n [] h = refl
occurrences-Ascending n (m ∷ ms) (b, h) = elim (Bool-cases (same_string n m)) [
  | inl e ↦
      let alone : occurrences n ms ≡ 0 =
        (λ i. occurrences (same_string_eq n m e i) ms) ∙ occurrences-Below m ms b in
      rw (e, alone) (omega arith)
  | inr e ↦ rw (e, occurrences-Ascending n ms h) (omega arith)
]

same_discovery :
    (n m : List ℕ) → same_string m discovery ≡ true → same_string n m ≡ same_string n discovery
same_discovery n m e = ap (same_string n) (same_string_eq m discovery e)

not_discovery :
    (n m : List ℕ)
    → same_string m discovery ≡ false
    → same_string n discovery ≡ true
    → same_string n m ≡ false
not_discovery n m e d =
    ap (λ k. same_string k m) (same_string_eq n discovery d) ∙ same_string_sym discovery m ∙ e

occurrences-others :
    (n : List ℕ) (ms : List (List ℕ))
    → occurrences n (others ms) ≡ (if same_string n discovery then 0 else occurrences n ms)
occurrences-others n [] = ground arith
occurrences-others n (m ∷ ms) = elim (Bool-cases (same_string m discovery)) [
  | inl e ↦ rw e (ground (arith, occurrences-others n ms, same_discovery n m e))
  | inr e ↦ rw e (ground (arith, occurrences-others n ms, not_discovery n m e))
]

-- No service but the last one started is that for the discovery of data.
contains-others : (ms : List (List ℕ)) → contains discovery (others ms) ≡ false
contains-others [] = refl
contains-others (m ∷ ms) = elim (Bool-cases (same_string m discovery)) [
  | inl e ↦ rw e (contains-others ms)
  | inr e ↦ rw (e, same_string_sym discovery m, e) (contains-others ms)
]

abbrev last_one : Bool → List (List ℕ)
last_one b = if b then discovery ∷ [] else []

one_or_none : (b : Bool) → (last_one b ≡ []) ⊎ (last_one b ≡ discovery ∷ [])
one_or_none true = inr refl
one_or_none false = inl refl

occurrences-last_one :
    (n : List ℕ) (b : Bool)
    → occurrences n (last_one b) ≡ (if b then (if same_string n discovery then 1 else 0) else 0)
occurrences-last_one n true = omega arith
occurrences-last_one n false = refl

discovery_once :
    (n : List ℕ) (ms : List (List ℕ))
    → Ascending ms
    → same_string n discovery ≡ true
    → occurrences n ms ≡ (if contains discovery ms then 1 else 0)
discovery_once n ms h e =
    occurrences-Ascending n ms h
    ∙ ap (λ k. if contains k ms then 1 else 0) (same_string_eq n discovery e)

started_once :
    (n : List ℕ) (ms : List (List ℕ))
    → Ascending ms
    → occurrences n (others ms ++ last_one (contains discovery ms)) ≡ occurrences n ms
started_once n ms h =
    occurrences-append n (others ms) (last_one (contains discovery ms))
    ∙ rw (occurrences-others n ms, occurrences-last_one n (contains discovery ms))
        (elim (Bool-cases (same_string n discovery)) [
          | inl e ↦ rw (e, discovery_once n ms h e) (omega arith)
          | inr e ↦ rw e (ground arith)
        ])

at_most_once : (n : List ℕ) (ms : List (List ℕ)) → Ascending ms → occurrences n ms ≤ 1
at_most_once n ms h = rw (occurrences-Ascending n ms h) (ground arith)

module _ {ℓ} {S : Type ℓ} (import_alias : List ℕ → List ℕ → Option S) where
  -- The services of a table.
  abbrev pub registered : List (Option ServiceRow) → List (ServiceInstance S)
  registered rows = register_all import_alias rows []

  -- Whatever the table of services has, names that are there twice and libraries that cannot
  -- be loaded included: no two services that are registered have one name, the thread of each
  -- is started exactly once and no other is, and the service for the discovery of data, if it
  -- is there, is the last one started.
  pub start_order-registered :
      (rows : List (Option ServiceRow))
      → ((n : List ℕ)
          → (occurrences n (start_order (registered rows))
              ≡ occurrences n (names (registered rows)))
            × (occurrences n (names (registered rows)) ≤ 1))
        × ((front : List (List ℕ)) × (back : List (List ℕ)) × (start_order (registered rows)
              ≡ front ++ back)
            × (contains discovery front ≡ false)
            × ((back ≡ []) ⊎ (back ≡ discovery ∷ [])))
  unfolding start_order
  start_order-registered rows =
      let ms = names (registered rows) in
      let sorted = register_all-Ascending import_alias rows [] tt in
      (
        λ n. (started_once n ms sorted, at_most_once n ms sorted),
        (
          others ms,
          last_one (contains discovery ms),
          refl,
          contains-others ms,
          one_or_none (contains discovery ms),
        ),
      )
