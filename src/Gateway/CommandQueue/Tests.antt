-- ===== src/Gateway/CommandQueue/Tests.antt =====
-- Calls of a short queue, and two producers who overfill it.
use sparcs.Prelude.{ℕ, ◌+◌, ◌≤◌, ◌≡◌, refl, arith, true, List, [], ◌∷◌, ◌++◌, length}
use sparcs.Gateway.CommandQueue.{CommandQueue, new_queue, enqueue, push_locked, dequeue, admits}
use sparcs.Gateway.CommandQueue.History.{Call, put, get, accepted, delivered, final, calls_in_order}
use sparcs.Gateway.CommandQueue.Race.{
  System, on_test, on_lock, Reachable, start, step, length-Reachable,
}

abbrev two : CommandQueue ℕ
two = new_queue 2

abbrev calls : List (Call ℕ)
calls = put 7 ∷ put 8 ∷ put 9 ∷ get ∷ put 10 ∷ get ∷ []

calls_in_order_example :
    two.m_queue ++ accepted calls two ≡ delivered calls two ++ (final calls two).m_queue
calls_in_order_example = calls_in_order calls two

-- The third command is refused; the fourth finds room.
calls-accepted : accepted calls two ≡ 7 ∷ 8 ∷ 10 ∷ []
unfolding new_queue enqueue admits push_locked dequeue
calls-accepted = refl

-- Two producers pass the test of a queue of one place, and both push.
overfull : System ℕ
overfull = record { queue = (push_locked 8 (push_locked 7 (new_queue 1)).0).0; waiting = [] }

admits_one : admits (new_queue {T = ℕ} 1) ≡ true
unfolding admits new_queue
admits_one = refl

overfull-Reachable : Reachable 2 1 overfull
unfolding overfull
overfull-Reachable =
    step
      (step
        (step (step start (on_test 8 admits_one (omega arith)))
          (on_test 7 admits_one (omega arith)))
        (on_lock [] 7 (8 ∷ [])))
      (on_lock [] 8 [])

overfull_by_one : length overfull.queue.m_queue ≡ 2
unfolding overfull push_locked new_queue
overfull_by_one = refl

length-Reachable_example : length overfull.queue.m_queue + length overfull.waiting + 1 ≤ 3
length-Reachable_example = length-Reachable 2 1 overfull (omega arith) overfull-Reachable
