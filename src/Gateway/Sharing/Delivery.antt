-- ===== src/Gateway/Sharing/Delivery.antt =====
-- Where a posted buffer goes: who holds it afterwards, and that a service with room has all of them.
use sparcs.Prelude.{
  ℕ, ◌+◌, ◌-◌, ◌^◌, ◌<◌, ◌≡◌, refl, ap, ◌∙◌, Bool, true, false, List, [], ◌∷◌, ◌++◌, length, map,
  get_or, set, ◌==◌, if◌then◌else◌, arith, u32,
}
use sparcs.Archiver.{Offer, buffer_accepted, buffer_released, buffer_refused}
use sparcs.Gateway.Registry.{ServiceInstance}
use sparcs.Gateway.Sharing.{
  Shared, share, release, keep, offer_one, offer_all, post_process_upmu_data,
}

get_or-end {ℓ} : {A : Type ℓ} (xs : List A) (r d : A) → get_or (xs ++ r ∷ []) (length xs) d ≡ r
get_or-end [] r d = refl
get_or-end (x ∷ xs) r d = get_or-end xs r d

set-end {ℓ} : {A : Type ℓ} (xs : List A) (r v : A) → set (xs ++ r ∷ []) (length xs) v ≡ xs ++ v ∷ []
set-end [] r v = refl
set-end (x ∷ xs) r v = ap (◌∷◌ x) (set-end xs r v)

-- Counts whose last one is that of the buffer that is offered.
abbrev ending : List ℕ → ℕ → ℕ → ℕ → Shared
ending rs r n t = record { refs = rs ++ r ∷ []; in_mem = n; total = t }

share-ending :
    (rs : List ℕ) (r n t : ℕ) → share (length rs) (ending rs r n t) ≡ ending rs (r + 1) n t
unfolding share
share-ending rs r n t = (λ i. ending' (set-end rs r (get_or-end rs r 0 i + 1) i))
  where
    ending' : List ℕ → Shared
    ending' l = record { refs = l; in_mem = n; total = t }

add_zero : (r : ℕ) → r ≡ r + 0
add_zero r = omega arith

abbrev pub one_more : Offer → ℕ
one_more buffer_accepted = 1
one_more buffer_released = 0
one_more buffer_refused = 0

keep-ending :
    (o : Offer) (rs : List ℕ) (r n t : ℕ)
    → keep (length rs) o (ending rs r n t) ≡ ending rs (r + one_more o) n t
keep-ending buffer_accepted rs r n t = share-ending rs r n t
keep-ending buffer_released rs r n t = ap (λ k. ending rs k n t) (omega arith)
keep-ending buffer_refused rs r n t = ap (λ k. ending rs k n t) (omega arith)

either {ℓ} :
    {T : Type ℓ} (b : Bool) (x y : T) (s : Shared) (rs : List ℕ) (r n t k : ℕ)
    → s ≡ ending rs (r + k) n t
    → ◌≡◌ {A = T × Shared}
        (if b then (x, s) else (y, ending rs r n t))
        ((if b then x else y), ending rs (r + (if b then k else 0)) n t)
either true x y s rs r n t k e = λ i. (x, e i)
either false x y s rs r n t k e = λ i. (y, ending rs (add_zero r i) n t)

module _ {ℓ} {S : Type ℓ} (offer : ℕ → S → S × Offer) where
  -- How many pointers a service copies, and how many all of them do.
  abbrev pub taken : ℕ → ServiceInstance S → ℕ
  taken b si = if si.service_accepts_data then one_more (offer b si.service_thread).1 else 0

  abbrev pub holders : ℕ → List (ServiceInstance S) → ℕ
  holders b [] = 0
  holders b (si ∷ sis) = taken b si + holders b sis

  -- A service behind an offer.
  abbrev pub offered : ℕ → ServiceInstance S → ServiceInstance S
  offered b si =
      if si.service_accepts_data
      then record si { service_thread = (offer b si.service_thread).0 }
      else si

  offer_one-ending :
      (rs : List ℕ) (r n t : ℕ) (si : ServiceInstance S)
      → offer_one offer (length rs) si (ending rs r n t)
        ≡ (offered (length rs) si, ending rs (r + taken (length rs) si) n t)
  offer_one-ending rs r n t si =
      either si.service_accepts_data _ si _ rs r n t _
        (keep-ending (offer (length rs) si.service_thread).1 rs r n t)

  offer_all-ending :
      (rs : List ℕ) (r n t : ℕ) (sis : List (ServiceInstance S))
      → offer_all offer (length rs) sis (ending rs r n t)
        ≡ (map (offered (length rs)) sis, ending rs (r + holders (length rs) sis) n t)
  unfolding offer_all
  offer_all-ending rs r n t [] = λ i. ([], ending rs (add_zero r i) n t)
  offer_all-ending rs r n t (si ∷ sis) =
      let b = length rs in
      let one = offer_one-ending rs r n t si in
      let rest = offer_all-ending rs (r + taken b si) n t sis in
      let sum : r + taken b si + holders b sis ≡ r + (taken b si + holders b sis) = omega arith in
      (λ i. ((one i).0 ∷ (offer_all offer b sis (one i).1).0, (offer_all offer b sis (one i).1).1))
      ∙ (λ i. (offered b si ∷ (rest i).0, (rest i).1))
      ∙ (λ i. (offered b si ∷ map (offered b) sis, ending rs (sum i) n t))

-- Counts with a number of pointers behind them.
abbrev pub counted : List ℕ → ℕ → ℕ → ℕ → Shared
counted rs h n t = record { refs = rs ++ h ∷ []; in_mem = n; total = t }

release-ending :
    (rs : List ℕ) (h n t : ℕ)
    → release (length rs) (ending rs (1 + h) n t)
      ≡ counted rs h (if h == 0 then u32 (n + 2 ^ 32 - 1) else n) t
unfolding release
release-ending rs h n t =
    let here = get_or-end rs (1 + h) 0 in
    let less : set (rs ++ (1 + h) ∷ []) (length rs) (get_or (rs ++ (1 + h) ∷ []) (length rs) 0 - 1)
        ≡ rs ++ h ∷ [] =
      set-end rs (1 + h) _ ∙ ap (λ k. rs ++ k ∷ []) (ap (λ k. k - 1) here ∙ omega arith) in
    rw (less, here) (ground arith)

module _ {ℓ} {S : Type ℓ} (offer : ℕ → S → S × Offer) where
  pub post_process_upmu_data_lem :
      (services : List (ServiceInstance S)) (s : Shared)
      → s.in_mem < 2 ^ 32
      → let b = length s.refs in
        let h = holders offer b services in
        post_process_upmu_data offer services s ≡ (
          map (offered offer b) services,
          counted s.refs h (u32 (s.in_mem + (if h == 0 then 0 else 1))) (u32 (s.total + 1)),
        )
  unfolding post_process_upmu_data
  post_process_upmu_data_lem services s small =
      let b = length s.refs in
      let h = holders offer b services in
      let n = u32 (s.in_mem + 1) in
      let t = u32 (s.total + 1) in
      let all = offer_all-ending offer s.refs 1 n t services in
      let back : (if h == 0 then u32 (n + 2 ^ 32 - 1) else n)
          ≡ u32 (s.in_mem + (if h == 0 then 0 else 1)) =
        ground arith in
      (λ i. ((all i).0, release b (all i).1))
      ∙ (λ i. (map (offered offer b) services, release-ending s.refs h n t i))
      ∙ (λ i. (map (offered offer b) services, counted s.refs h (back i) t))
