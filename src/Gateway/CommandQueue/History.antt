-- ===== src/Gateway/CommandQueue/History.antt =====
-- What goes into the queue comes out of it, in the same order.
use sparcs.Prelude.{
  ◌≡◌, refl, sym, ap, ◌∙◌, List, [], ◌∷◌, ◌++◌, Option, none, some, if◌then◌else◌, Bool, true,
  false,
}
use mathlib.Core.List.{append_assoc, append-nil}
use sparcs.Gateway.CommandQueue.{CommandQueue, enqueue, dequeue, admits, push_locked, dequeue_from}

-- A call of the queue.
pub data Call (T : Type 0) : Type 0 where
  put : T → Call T
  get : Call T

module _ {T : Type 0} where
  -- What one call lets in, and what it lets out.
  abbrev pub accepted_by : Call T → CommandQueue T → List T
  accepted_by (put x) q = if admits q then x ∷ [] else []
  accepted_by get q = []

  abbrev out : Option T → List T
  out none = []
  out (some x) = x ∷ []

  abbrev pub delivered_by : Call T → CommandQueue T → List T
  delivered_by (put x) q = []
  delivered_by get q = out (dequeue q).1

  abbrev pub after : Call T → CommandQueue T → CommandQueue T
  after (put x) q = (enqueue x q).0
  after get q = (dequeue q).0

  abbrev pub final : List (Call T) → CommandQueue T → CommandQueue T
  final [] q = q
  final (c ∷ cs) q = final cs (after c q)

  abbrev pub accepted : List (Call T) → CommandQueue T → List T
  accepted [] q = []
  accepted (c ∷ cs) q = accepted_by c q ++ accepted cs (after c q)

  abbrev pub delivered : List (Call T) → CommandQueue T → List T
  delivered [] q = []
  delivered (c ∷ cs) q = delivered_by c q ++ delivered cs (after c q)

  dequeue_from-out :
      (items : List T) (q : CommandQueue T)
      → q.m_queue ≡ items
      → items ≡ out (dequeue_from items q).1 ++ (dequeue_from items q).0.m_queue
  unfolding dequeue_from
  dequeue_from-out [] q e = sym e
  dequeue_from-out (x ∷ rest) q e = refl

  put_by :
      (b : Bool) (x : T) (q : CommandQueue T)
      → q.m_queue ++ (if b then x ∷ [] else []) ≡ (if b then push_locked x q else (q, 0)).0.m_queue
  unfolding push_locked
  put_by true x q = refl
  put_by false x q = append-nil q.m_queue

  one_call :
      (c : Call T) (q : CommandQueue T)
      → q.m_queue ++ accepted_by c q ≡ delivered_by c q ++ (after c q).m_queue
  unfolding enqueue dequeue
  one_call (put x) q = put_by (admits q) x q
  one_call get q = append-nil q.m_queue ∙ dequeue_from-out q.m_queue q refl

  -- Whatever calls one thread makes of the command queue, what was held at first followed by
  -- what was accepted is what was delivered followed by what is held at last: no command is
  -- lost, doubled or overtaken.
  pub calls_in_order :
      (cs : List (Call T)) (q : CommandQueue T)
      → q.m_queue ++ accepted cs q ≡ delivered cs q ++ (final cs q).m_queue
  calls_in_order [] q = append-nil q.m_queue
  calls_in_order (c ∷ cs) q =
      let r = after c q in
      sym (append_assoc q.m_queue (accepted_by c q) (accepted cs r))
      ∙ ap (λ l. l ++ accepted cs r) (one_call c q)
      ∙ append_assoc (delivered_by c q) r.m_queue (accepted cs r)
      ∙ ap (λ l. delivered_by c q ++ l) (calls_in_order cs r)
      ∙ sym (append_assoc (delivered_by c q) (delivered cs r) (final cs r).m_queue)
