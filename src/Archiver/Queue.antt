-- ===== src/Archiver/Queue.antt =====
-- `dataBufferOffer`: a bounded first-in first-out queue.
use sparcs.Prelude.{◌≤◌, ◌<◌, ◌≡◌, ◌∷◌, [], ◌++◌, length, length-append, arith, ◌⊎◌}
use sparcs.Phasor.Reformat.{SecBuffer}
use sparcs.Archiver.{Archiver, data_buffer_offer, buffer_accepted, buffer_refused}

-- For a queue of at most sixteen buffers: either there is room, the offer is accepted and the
-- buffer stands last, or there are sixteen, the offer is refused and nothing changes; and the
-- queue has at most sixteen buffers afterwards.
pub data_buffer_offer_lem :
    (b : SecBuffer) (a : Archiver)
    → length a.data_queue ≤ 16
    → let r = data_buffer_offer b a in
      (((length a.data_queue < 16)
          × (r.1 ≡ buffer_accepted)
          × (r.0.data_queue ≡ a.data_queue ++ b ∷ []))
        ⊎ ((length a.data_queue ≡ 16) × (r.1 ≡ buffer_refused) × (r.0 ≡ a)))
      × (length r.0.data_queue ≤ 16)
unfolding data_buffer_offer
data_buffer_offer_lem b a h = (ground arith, ground (arith, length-append a.data_queue (b ∷ [])))
