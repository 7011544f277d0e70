-- ===== src/Client/Queue.antt =====
-- MiniMonClient/src/queue.h: the bounded queue between the two threads of a capture. Each function
-- runs its member under the mutex; `blocked` says that the member waits on its condition variable. The
-- wake-ups (notify_one and notify_all) are not modelled: a thread that waits may test its condition again
-- at any time.
pub mod Laws
use minifilter_monitor.Common.{
  ℕ, Bool, true, false, List, [], ◌∷◌, ◌++◌, ◌||◌, not, ltb, length, is_empty, if◌then◌else◌,
}

pub record Queue {ℓ} (A : Type ℓ) : Type ℓ where
  pub items : List A
  pub max_item_count : ℕ
  pub closed : Bool

pub data Pushed {ℓ} (A : Type ℓ) : Type ℓ where
  blocked refused : Pushed A
  pushed : Queue A → Pushed A

pub data Popped {ℓ} (A : Type ℓ) : Type ℓ where
  blocked finished : Popped A
  popped : A → Queue A → Popped A

module _ {ℓ} {A : Type ℓ} where
  abbrev pub new : ℕ → Queue A
  new item_count = record { items = []; max_item_count = item_count; closed = false }

  unfoldable pub push : A → Queue A → Pushed A
  push item q =
      if not (ltb (length q.items) q.max_item_count || q.closed)
      then Pushed.blocked
      else if q.closed
      then refused
      else pushed (record q { items = q.items ++ (item ∷ []) })

  unfoldable pub pop : Queue A → Popped A
  pop q =
      if not (not (is_empty q.items) || q.closed)
      then Popped.blocked
      else elim (q.items) [ [] ↦ finished | item ∷ rest ↦ popped item (record q { items = rest }) ]

  unfoldable pub close : Queue A → Queue A
  close q = record q { closed = true }
