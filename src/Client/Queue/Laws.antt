-- ===== src/Client/Queue/Laws.antt =====
-- MiniMonClient/src/queue.h: the outcomes of push and pop.
use minifilter_monitor.Common.{◌≤◌, ◌≡◌, false, [], ◌∷◌, length, arith}
use minifilter_monitor.Client.Queue.{Queue, Pushed, Popped, push, pop, popped}

module _ {ℓ} {A : Type ℓ} where
  -- A pop takes the oldest item.
  pub pop-popped :
      (q q' : Queue A) {a : A} → pop q ≡ popped a q' → q ≡ record q' { items = a ∷ q'.items }
  unfolding pop
  pop-popped q q' h = ground arith

  -- A push waits exactly while the queue is full and open.
  pub push-blocked :
      (a : A) (q : Queue A)
      → push a q ≡ Pushed.blocked
      → (q.max_item_count ≤ length q.items) × (q.closed ≡ false)
  unfolding push
  push-blocked a q h = ground arith

  -- A pop waits exactly while the queue is empty and open.
  pub pop-blocked : (q : Queue A) → pop q ≡ Popped.blocked → (q.items ≡ []) × (q.closed ≡ false)
  unfolding pop
  pop-blocked q h = ground arith
