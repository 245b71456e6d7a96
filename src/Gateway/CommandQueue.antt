-- ===== src/Gateway/CommandQueue.antt =====
-- The bounded queue of commands, `SynchronisedCommandQueue` in
-- uPMUgateway/serviceCommandQueueTemplate.h, with the states of serviceQueue.h. `Enqueue` looks at
-- the size before it takes the lock, so it is two steps: `admits` without the lock, and
-- `push_locked` with it. The length given to the constructor is not negative.
pub mod State
pub mod History
pub mod Race
mod Tests
use sparcs.Prelude.{
  ℕ, Bool, true, false, Option, none, some, List, [], ◌∷◌, ◌++◌, length, leb, ltb, not,
  if◌then◌else◌,
}

pub data QueueState : Type 0 where
  queue_empty queue_available queue_full : QueueState

pub record CommandQueue (T : Type 0) : Type 0 where
  pub m_queue : List T
  pub queue_length : ℕ
  pub queue_state : QueueState

module _ {T : Type 0} where
  unfoldable pub new_queue : ℕ → CommandQueue T
  new_queue len = record { m_queue = []; queue_length = len; queue_state = queue_empty }

  -- The test at the start of `Enqueue`.
  unfoldable pub admits : CommandQueue T → Bool
  admits q = not (leb q.queue_length (length q.m_queue))

  -- The rest of `Enqueue`, under the lock: the queue, and its size.
  unfoldable pub push_locked : T → CommandQueue T → CommandQueue T × ℕ
  push_locked x q =
      let items = q.m_queue ++ x ∷ [] in
      let state = if ltb (length items) q.queue_length then queue_available else queue_full in
      (record q { m_queue = items; queue_state = state }, length items)

  unfoldable pub enqueue : T → CommandQueue T → CommandQueue T × ℕ
  enqueue x q = if admits q then push_locked x q else (q, 0)

  dequeue_from : List T → CommandQueue T → CommandQueue T × Option T
  dequeue_from [] q = (q, none)
  dequeue_from (x ∷ rest) q =
      let state = if ltb 0 (length rest) then queue_available else queue_empty in
      (record q { m_queue = rest; queue_state = state }, some x)

  -- `none` is the null command.
  unfoldable pub dequeue : CommandQueue T → CommandQueue T × Option T
  unfolding dequeue_from
  dequeue q = dequeue_from q.m_queue q
