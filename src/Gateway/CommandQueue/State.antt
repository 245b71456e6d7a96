-- ===== src/Gateway/CommandQueue/State.antt =====
-- The queue as one thread sees it: first in, first out, bounded, with a state that is its size's.
use sparcs.Prelude.{
  ℕ, ◌+◌, ◌≤◌, ◌<◌, ◌≡◌, refl, ap, arith, Bool-cases, inl, inr, List, [], ◌∷◌, ◌++◌, length,
  length-append, if◌then◌else◌, ◌==◌, leb,
}
use sparcs.Gateway.CommandQueue.{
  CommandQueue, QueueState, queue_empty, queue_available, queue_full, new_queue, enqueue, dequeue,
  admits, push_locked, dequeue_from,
}

-- The state that belongs to a size.
abbrev pub state_of : ℕ → ℕ → QueueState
state_of len n = if n == 0 then queue_empty else if leb len n then queue_full else queue_available

-- The state is that of the size, and the size is within the length given.
pub record IsConsistent {T : Type 0} (q : CommandQueue T) : Type 0 where
  pub positive : 0 < q.queue_length
  pub bounded : length q.m_queue ≤ q.queue_length
  pub state : q.queue_state ≡ state_of q.queue_length (length q.m_queue)

module _ {T : Type 0} where
  pub new_queue-IsConsistent : (len : ℕ) → 0 < len → IsConsistent (new_queue {T = T} len)
  unfolding new_queue
  new_queue-IsConsistent len h = record { positive = h; bounded = omega arith; state = refl }

  -- On a queue whose state is that of its size and whose size is within its positive length,
  -- `Enqueue` keeps both; with room the command stands last and the new size is returned, and
  -- a full queue is unchanged and 0 is returned.
  pub enqueue_lem :
      (x : T) (q : CommandQueue T)
      → IsConsistent q
      → let r = enqueue x q in
        IsConsistent r.0
        × (length q.m_queue < q.queue_length
            → (r.0.m_queue ≡ q.m_queue ++ x ∷ []) × (r.1 ≡ length q.m_queue + 1))
        × (length q.m_queue ≡ q.queue_length → (r.0 ≡ q) × (r.1 ≡ 0))
  unfolding enqueue admits push_locked
  enqueue_lem x q c =
      let n = length-append q.m_queue (x ∷ []) in
      elim (Bool-cases (leb q.queue_length (length q.m_queue))) [
        | inl t ↦ rw t (c, (λ h. ground arith), (λ h. (refl, refl)))
        | inr f ↦ rw f (
          record { positive = c.positive; bounded = ground (arith, n); state = ground (arith, n) },
          (λ h. (refl, n)),
          (λ h. ground arith),
        )
      ]

  dequeue_from_lem :
      (items : List T) (q : CommandQueue T)
      → q.m_queue ≡ items
      → IsConsistent q
      → IsConsistent (dequeue_from items q).0
  unfolding dequeue_from
  dequeue_from_lem [] q e c = c
  dequeue_from_lem (x ∷ rest) q e c =
      let n = ap length e in
      record {
        positive = c.positive;
        bounded = omega (arith, c.bounded, n);
        state = ground (arith, c.bounded, n);
      }

  -- `Dequeue` on a queue whose state is that of its size and whose size is within its
  -- positive length keeps both.
  pub dequeue-IsConsistent : (q : CommandQueue T) → IsConsistent q → IsConsistent (dequeue q).0
  unfolding dequeue
  dequeue-IsConsistent q c = dequeue_from_lem q.m_queue q refl c
