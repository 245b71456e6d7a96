-- ===== src/Gateway/Sharing/Queues.antt =====
-- The buffers that the reformatter posts stand in the queue of each archiver that has room.
use sparcs.Prelude.{
  ℕ, suc, ◌+◌, ◌^◌, ◌≤◌, ◌<◌, ◌≡◌, refl, sym, ap, ◌∙◌, Bool, true, false, List, [], ◌∷◌, ◌++◌,
  length, map, replicate, length-append, ◌==◌, if◌then◌else◌, arith, u32,
}
use mathlib.Core.List.{append_assoc, append-nil}
use sparcs.Archiver.{Archiver, Offer, buffer_accepted, data_buffer_offer}
use sparcs.Phasor.Reformat.{SecBuffer}
use sparcs.Gateway.Registry.{ServiceInstance}
use sparcs.Gateway.Sharing.{Shared, post_process_upmu_data}
use sparcs.Gateway.Sharing.Delivery.{
  one_more, holders, offered, counted, post_process_upmu_data_lem,
}

-- What an archiver does with an offer of the buffer.
abbrev pub archive_offer : SecBuffer → ℕ → Archiver → Archiver × Offer
archive_offer c b a = data_buffer_offer c a

-- Posts in turn.
unfoldable pub post_each :
    List SecBuffer
    → List (ServiceInstance Archiver)
    → Shared
    → List (ServiceInstance Archiver) × Shared
post_each [] services s = (services, s)
post_each (c ∷ cs) services s =
    let (services', s') = post_process_upmu_data (archive_offer c) services s in
    post_each cs services' s'

-- The buffers behind those of the queue, for a service that accepts data.
abbrev pub more : List SecBuffer → Bool → Archiver → Archiver
more bs true a = record a { data_queue = a.data_queue ++ bs }
more bs false a = a

abbrev pub queued : List SecBuffer → ServiceInstance Archiver → ServiceInstance Archiver
queued bs si = record si { service_thread = more bs si.service_accepts_data si.service_thread }

abbrev pub HasRoom : ℕ → List (ServiceInstance Archiver) → Type 0
HasRoom n [] = Unit
HasRoom n (si ∷ sis) = (length si.service_thread.data_queue + n ≤ 16) × HasRoom n sis

abbrev pub accepting : List (ServiceInstance Archiver) → ℕ
accepting [] = 0
accepting (si ∷ sis) = (if si.service_accepts_data then 1 else 0) + accepting sis

offer_room :
    (c : SecBuffer) (a : Archiver)
    → length a.data_queue < 16
    → data_buffer_offer c a ≡ (record a { data_queue = a.data_queue ++ c ∷ [] }, buffer_accepted)
unfolding data_buffer_offer
offer_room c a h = ground arith

offered_one :
    (c : SecBuffer) (b : Bool) (si : ServiceInstance Archiver)
    → (if b
        then record si {
          service_thread = record si.service_thread {
            data_queue = si.service_thread.data_queue ++ c ∷ [];
          };
        }
        else si)
      ≡ record si { service_thread = more (c ∷ []) b si.service_thread }
offered_one c true si = refl
offered_one c false si = refl

offered-queued :
    (c : SecBuffer) (b n : ℕ) (sis : List (ServiceInstance Archiver))
    → HasRoom (suc n) sis
    → map (offered (archive_offer c) b) sis ≡ map (queued (c ∷ [])) sis
offered-queued c b n [] h = refl
offered-queued c b n (si ∷ sis) (r, h) =
    let one = offer_room c si.service_thread (omega arith) in
    (λ i.
      (if si.service_accepts_data then record si { service_thread = (one i).0 } else si)
      ∷ offered-queued c b n sis h i)
    ∙ (λ i. offered_one c si.service_accepts_data si i ∷ map (queued (c ∷ [])) sis)

holders-accepting :
    (c : SecBuffer) (b n : ℕ) (sis : List (ServiceInstance Archiver))
    → HasRoom (suc n) sis
    → holders (archive_offer c) b sis ≡ accepting sis
holders-accepting c b n [] h = refl
holders-accepting c b n (si ∷ sis) (r, h) =
    let one = offer_room c si.service_thread (omega arith) in
    λ i.
      (if si.service_accepts_data then one_more (one i).1 else 0) + holders-accepting c b n sis h i

length-more :
    (c : SecBuffer) (b : Bool) (a : Archiver)
    → length (more (c ∷ []) b a).data_queue ≤ length a.data_queue + 1
length-more c true a = omega (arith, length-append a.data_queue (c ∷ []))
length-more c false a = omega arith

queued-HasRoom :
    (c : SecBuffer) (n : ℕ) (sis : List (ServiceInstance Archiver))
    → HasRoom (suc n) sis
    → HasRoom n (map (queued (c ∷ [])) sis)
queued-HasRoom c n [] h = tt
queued-HasRoom c n (si ∷ sis) (r, h) = (
  omega (arith, length-more c si.service_accepts_data si.service_thread),
  queued-HasRoom c n sis h,
)

queued-accepting :
    (c : SecBuffer) (sis : List (ServiceInstance Archiver))
    → accepting (map (queued (c ∷ [])) sis) ≡ accepting sis
queued-accepting c [] = refl
queued-accepting c (si ∷ sis) = ground (arith, queued-accepting c sis)

more-more :
    (c : SecBuffer) (cs : List SecBuffer) (b : Bool) (a : Archiver)
    → more cs b (more (c ∷ []) b a) ≡ more (c ∷ cs) b a
more-more c cs true a = λ i. record a { data_queue = append_assoc a.data_queue (c ∷ []) cs i }
more-more c cs false a = refl

queued-queued :
    (c : SecBuffer) (cs : List SecBuffer) (sis : List (ServiceInstance Archiver))
    → map (queued cs) (map (queued (c ∷ [])) sis) ≡ map (queued (c ∷ cs)) sis
queued-queued c cs [] = refl
queued-queued c cs (si ∷ sis) = λ i.
    record si { service_thread = more-more c cs si.service_accepts_data si.service_thread i }
    ∷ queued-queued c cs sis i

more-nil : (b : Bool) (a : Archiver) → a ≡ more [] b a
more-nil true a = λ i. record a { data_queue = sym (append-nil a.data_queue) i }
more-nil false a = refl

queued-nil : (sis : List (ServiceInstance Archiver)) → sis ≡ map (queued []) sis
queued-nil [] = refl
queued-nil (si ∷ sis) = λ i.
    record si { service_thread = more-nil si.service_accepts_data si.service_thread i }
    ∷ queued-nil sis i

-- Buffers that the reformatter posts in turn to services that are archivers, each with room for
-- all of them in its queue: they stand in this order behind what the queue had of each service
-- that accepts data, the other services are as they were, and each buffer is then held by as
-- many pointers as services accept data, the one of the reformatter being released.
pub post_each-queued :
    (bs : List SecBuffer) (services : List (ServiceInstance Archiver)) (s : Shared)
    → HasRoom (length bs) services
    → s.in_mem < 2 ^ 32
    → ((post_each bs services s).0 ≡ map (queued bs) services)
      × ((post_each bs services s).1.refs ≡ s.refs ++ replicate (length bs) (accepting services))
unfolding post_each
post_each-queued [] services s room small = (queued-nil services, sym (append-nil s.refs))
post_each-queued (c ∷ cs) services s room small =
    let b = length s.refs in
    let h = holders (archive_offer c) b services in
    let s' = counted s.refs h (u32 (s.in_mem + (if h == 0 then 0 else 1))) (u32 (s.total + 1)) in
    let services' = map (queued (c ∷ [])) services in
    let posted : post_process_upmu_data (archive_offer c) services s ≡ (services', s') =
      post_process_upmu_data_lem (archive_offer c) services s small
      ∙ (λ i. (offered-queued c b (length cs) services room i, s')) in
    let rest =
      post_each-queued cs services' s' (queued-HasRoom c (length cs) services room) (omega arith) in
    let same : h ≡ accepting services = holders-accepting c b (length cs) services room in
    (
      ap (λ r. (post_each cs r.0 r.1).0) posted ∙ rest.0 ∙ queued-queued c cs services,
      ap (λ r. (post_each cs r.0 r.1).1.refs) posted
          ∙ rest.1
          ∙ append_assoc s.refs (h ∷ []) _
          ∙ (λ i. s.refs ++ same i ∷ replicate (length cs) (queued-accepting c services i)),
    )
