-- ===== src/Gateway/Sharing/Counts.antt =====
-- The count of buffers in memory is that of the buffers that some pointer holds, however the threads
-- of the services make, copy and drop pointers.
use sparcs.Prelude.{
  ℕ, zero, suc, ◌+◌, ◌-◌, ◌<◌, ◌≡◌, refl, List, [], ◌∷◌, ◌++◌, length, get_or, set, length-append,
  length-set, ◌==◌, if◌then◌else◌, arith, u32,
}
use sparcs.Gateway.Sharing.{Shared, none_shared, create, share, release}

-- The buffers that are held.
abbrev pub live : List ℕ → ℕ
live [] = 0
live (r ∷ rs) = (if r == 0 then 0 else 1) + live rs

live-append : (rs qs : List ℕ) → live (rs ++ qs) ≡ live rs + live qs
live-append [] qs = omega arith
live-append (r ∷ rs) qs = omega (arith, live-append rs qs)

live-set :
    (rs : List ℕ) (b v : ℕ)
    → 0 < get_or rs b 0
    → live (set rs b v) + 1 ≡ live rs + (if v == 0 then 0 else 1)
live-set [] b v h = absurd (omega arith)
live-set (r ∷ rs) zero v h = ground arith
live-set (r ∷ rs) (suc b) v h = omega (arith, live-set rs b v h)

-- What the threads may do: a pointer that is copied or dropped is there.
pub data Step : Shared → Shared → Type 0 where
  makes : (s : Shared) → Step s (create s).0
  copies : (s : Shared) (b : ℕ) → 0 < get_or s.refs b 0 → Step s (share b s)
  drops : (s : Shared) (b : ℕ) → 0 < get_or s.refs b 0 → Step s (release b s)

pub data Reachable : Shared → Type 0 where
  start : Reachable none_shared
  next : {s t : Shared} → Reachable s → Step s t → Reachable t

pub record IsCounted (s : Shared) : Type 0 where
  pub in_memory : s.in_mem ≡ u32 (live s.refs)
  pub in_all : s.total ≡ u32 (length s.refs)

create-IsCounted : (s : Shared) → IsCounted s → IsCounted (create s).0
unfolding create
create-IsCounted s c = record {
  in_memory = omega (arith, live-append s.refs (1 ∷ []), c.in_memory);
  in_all = omega (arith, length-append s.refs (1 ∷ []), c.in_all);
}

share-IsCounted : (s : Shared) (b : ℕ) → 0 < get_or s.refs b 0 → IsCounted s → IsCounted (share b s)
unfolding share
share-IsCounted s b h c = record {
  in_memory = ground (arith, live-set s.refs b (get_or s.refs b 0 + 1), c.in_memory);
  in_all = ground (arith, length-set s.refs b (get_or s.refs b 0 + 1), c.in_all);
}

release-IsCounted :
    (s : Shared) (b : ℕ) → 0 < get_or s.refs b 0 → IsCounted s → IsCounted (release b s)
unfolding release
release-IsCounted s b h c = record {
  in_memory = ground (arith, live-set s.refs b (get_or s.refs b 0 - 1), c.in_memory);
  in_all = ground (arith, length-set s.refs b (get_or s.refs b 0 - 1), c.in_all);
}

Step-IsCounted : {s t : Shared} → Step s t → IsCounted s → IsCounted t
Step-IsCounted (makes s) c = create-IsCounted s c
Step-IsCounted (copies s b h) c = share-IsCounted s b h c
Step-IsCounted (drops s b h) c = release-IsCounted s b h c

-- However pointers to buffers are made, copied and dropped, as long as only one that is there
-- is copied or dropped: the count of buffers in memory is the number of those that a pointer
-- holds, and the total is the number of all that were made, both modulo 2 ^ 32.
pub Reachable-IsCounted : {s : Shared} → Reachable s → IsCounted s
Reachable-IsCounted start = record { in_memory = refl; in_all = refl }
Reachable-IsCounted (next r st) = Step-IsCounted st (Reachable-IsCounted r)
