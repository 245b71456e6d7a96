-- ===== src/Gateway/Sharing.antt =====
-- The buffers that the services share: uPMUgateway/serviceDataBuffer.h, and `postProcessUPMUdata` of
-- serviceDataDiscovery_C37/C37_Reformat.cpp, which offers a buffer to the services. A buffer is its
-- place in the list of reference counts, the use count of its `std::shared_ptr`.
pub mod Counts
pub mod Delivery
pub mod Queues
mod Tests
use sparcs.Prelude.{
  ℕ, zero, suc, ◌+◌, ◌-◌, ◌^◌, ◌%◌, Bool, true, false, Option, none, some, List, [], ◌∷◌, ◌++◌,
  length, get_or, set, ltb, ◌==◌, if◌then◌else◌, u32,
}
use sparcs.Archiver.{Offer, buffer_accepted, buffer_released, buffer_refused}
use sparcs.Gateway.Registry.{ServiceInstance}

-- The reference counts, `sharedInMemDataBufferCnt` and `sharedTotalDataBufferCnt`.
pub record Shared : Type 0 where
  pub refs : List ℕ
  pub in_mem : ℕ
  pub total : ℕ

abbrev pub none_shared : Shared
none_shared = record { refs = []; in_mem = 0; total = 0 }

-- The constructor, in `ptr(new serviceDataBuffer(...))`.
unfoldable pub create : Shared → Shared × ℕ
create s = (
  record { refs = s.refs ++ 1 ∷ []; in_mem = u32 (s.in_mem + 1); total = u32 (s.total + 1) },
  length s.refs,
)

-- A copy of the pointer.
unfoldable pub share : ℕ → Shared → Shared
share b s = record s { refs = set s.refs b (get_or s.refs b 0 + 1) }

-- `reset`, or the end of a pointer. The last one runs the destructor.
unfoldable pub release : ℕ → Shared → Shared
release b s =
    let s' = record s { refs = set s.refs b (get_or s.refs b 0 - 1) } in
    if get_or s.refs b 0 == 1 then record s' { in_mem = u32 (s.in_mem + 2 ^ 32 - 1) } else s'

-- The pointer that a service copies when it accepts.
abbrev pub keep : ℕ → Offer → Shared → Shared
keep b buffer_accepted s = share b s
keep b buffer_released s = s
keep b buffer_refused s = s

-- `offer` is what a service does with an offer.
module _ {ℓ} {S : Type ℓ} (offer : ℕ → S → S × Offer) where
  -- `serviceThread->dataBufferOffer(ptr)`, for a service that accepts data.
  abbrev pub offer_one : ℕ → ServiceInstance S → Shared → ServiceInstance S × Shared
  offer_one b si s =
      let (t, o) = offer b si.service_thread in
      if si.service_accepts_data then (record si { service_thread = t }, keep b o s) else (si, s)

  -- The loop over the services.
  unfoldable pub offer_all :
      ℕ → List (ServiceInstance S) → Shared → List (ServiceInstance S) × Shared
  offer_all b [] s = ([], s)
  offer_all b (si ∷ sis) s =
      let (si', s') = offer_one b si s in let (sis', s'') = offer_all b sis s' in (si' ∷ sis', s'')

  unfoldable pub post_process_upmu_data :
      List (ServiceInstance S) → Shared → List (ServiceInstance S) × Shared
  unfolding create release offer_all
  post_process_upmu_data services s =
      let (s1, b) = create s in
      let (services', s2) = offer_all b services s1 in (services', release b s2)
