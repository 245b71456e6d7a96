-- ===== src/Gateway/Sharing/Tests.antt =====
-- Two archivers and a service without data: where posted buffers go, and what is counted.
use sparcs.Prelude.{
  ℕ, ◌≡◌, refl, Bool, true, false, none, List, [], ◌∷◌, ◌++◌, length, map, replicate, arith,
}
use sparcs.Prelude.Ints.{pos}
use sparcs.Archiver.{Archiver, data_buffer_offer}
use sparcs.Phasor.Reformat.{SecBuffer}
use sparcs.Gateway.Registry.{ServiceInstance}
use sparcs.Gateway.Sharing.{Shared, none_shared, create, share, release, post_process_upmu_data}
use sparcs.Gateway.Sharing.Counts.{
  Reachable, IsCounted, start, next, makes, copies, drops, Reachable-IsCounted,
}
use sparcs.Gateway.Sharing.Queues.{post_each, queued, accepting, post_each-queued}

-- A buffer that is made, copied and left by both pointers.
abbrev left : Shared
left = release 0 (release 0 (share 0 (create none_shared).0))

left_counts : left ≡ record { refs = 0 ∷ []; in_mem = 0; total = 1 }
unfolding release share create
left_counts = refl

left_reachable : Reachable left
unfolding release share create
left_reachable =
    let made = next start (makes none_shared) in
    let both = next made (copies _ 0 (omega arith)) in
    let one = next both (drops _ 0 (omega arith)) in next one (drops _ 0 (omega arith))

Reachable-IsCounted_example : IsCounted left
Reachable-IsCounted_example = Reachable-IsCounted left_reachable

abbrev archiver : Bool → ServiceInstance Archiver
archiver accepts = record {
  service_name = [];
  service_implementation = [];
  service_lib_path = [];
  service_accepts_data = accepts;
  service_mask = pos 0;
  service_queue_depth = pos 16;
  service_thread = record {
    data_queue = [];
    data_buf = none;
    bpr = record { num_records = 0; next_record = 0; num_inserts_in_accum = 0 };
  };
}

abbrev services : List (ServiceInstance Archiver)
services = archiver true ∷ archiver false ∷ archiver true ∷ []

abbrev buffer_of : ℕ → SecBuffer
buffer_of n = record { byte_len = 2; bytes = n ∷ n ∷ [] }

abbrev posted : List SecBuffer
posted = buffer_of 1 ∷ buffer_of 2 ∷ []

posted_refs : (post_each posted services none_shared).1.refs ≡ 2 ∷ 2 ∷ []
unfolding post_each post_process_upmu_data release share data_buffer_offer
posted_refs = refl

post_each-queued_example :
    ((post_each posted services none_shared).0 ≡ map (queued posted) services)
    × ((post_each posted services none_shared).1.refs
        ≡ none_shared.refs ++ replicate (length posted) (accepting services))
post_each-queued_example =
    post_each-queued posted services none_shared (omega arith, (omega arith, (omega arith, tt)))
      (omega arith)
