-- ===== src/Gateway/CommandQueue/Race.antt =====
-- Several producers: the test of the size and the locked part of `Enqueue` interleave.
use sparcs.Prelude.{
  ℕ, ◌+◌, ◌≤◌, ◌<◌, ◌≡◌, refl, ap, arith, List, [], ◌∷◌, ◌++◌, length, length-append, true,
}
use sparcs.Gateway.CommandQueue.{
  CommandQueue, new_queue, admits, push_locked, dequeue, dequeue_from,
}

-- The queue, and the commands whose producers have passed the test and wait for the lock.
pub record System (T : Type 0) : Type 0 where
  pub queue : CommandQueue T
  pub waiting : List T

module _ {T : Type 0} (producers : ℕ) where
  pub data Step : System T → System T → Type 0 where
    on_test :
        {s : System T} (x : T)
        → admits s.queue ≡ true
        → length s.waiting < producers
        → Step s (record s { waiting = x ∷ s.waiting })
    on_lock :
        {q : CommandQueue T} (xs : List T) (x : T) (ys : List T)
        → Step
            (record { queue = q; waiting = xs ++ x ∷ ys })
            (record { queue = (push_locked x q).0; waiting = xs ++ ys })
    on_dequeue : {s : System T} → Step s (record s { queue = (dequeue s.queue).0 })

  pub data Reachable (len : ℕ) : System T → Type 0 where
    start : Reachable len (record { queue = new_queue len; waiting = [] })
    step : {s t : System T} → Reachable len s → Step s t → Reachable len t

  abbrev Within : ℕ → System T → Type 0
  Within len s =
      (s.queue.queue_length ≡ len)
      × (length s.queue.m_queue + length s.waiting + 1 ≤ len + producers)

  length-dequeue_from :
      (items : List T) (q : CommandQueue T)
      → q.m_queue ≡ items
      → ((dequeue_from items q).0.queue_length ≡ q.queue_length)
        × (length (dequeue_from items q).0.m_queue ≤ length q.m_queue)
  unfolding dequeue_from
  length-dequeue_from [] q e = (refl, omega arith)
  length-dequeue_from (x ∷ rest) q e = (refl, omega (arith, ap length e))

  Step-Within : (len : ℕ) {s t : System T} → Step s t → Within len s → Within len t
  unfolding admits push_locked dequeue
  Step-Within len {s} (on_test x a few) w = (w.0, ground arith)
  Step-Within len (on_lock {q} xs x ys) w = (
    w.0,
    omega (
      arith,
      w.1,
      length-append q.m_queue (x ∷ []),
      length-append xs (x ∷ ys),
      length-append xs ys,
    ),
  )
  Step-Within len {s} on_dequeue w =
      let d = length-dequeue_from s.queue.m_queue s.queue refl in
      (ground (arith, d.0), omega (arith, d.1, w.1))

  -- With several producers whose test of the size and locked push interleave in any way, for
  -- a length and a number of producers that are not both 0: the commands held and those whose
  -- producers wait for the lock are together fewer than the length plus the number of
  -- producers. So one producer never passes the length, and several pass it by less than
  -- their number.
  pub length-Reachable :
      (len : ℕ) (s : System T)
      → 0 < len + producers
      → Reachable len s
      → length s.queue.m_queue + length s.waiting + 1 ≤ len + producers
  length-Reachable len s h r = (go r).1
    where
      go : {t : System T} → Reachable len t → Within len t
      go start = unfold new_queue in (refl, omega arith)
      go (step r e) = Step-Within len e (go r)
