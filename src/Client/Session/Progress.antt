-- ===== src/Client/Session/Progress.antt =====
-- MiniMonClient/src/main.cpp: the steps that the two threads can make.
use minifilter_monitor.Common.{
  ℕ, ◌≡◌, refl, ap, true, List, [], ◌∷◌, ◌⊎◌, inl, inr, Bool-cases, length, arith,
}
use minifilter_monitor.Protocol.{Record}
use minifilter_monitor.Client.Queue.{push, pop, Pushed, pushed, refused, popped, Popped}
use minifilter_monitor.Client.Queue.Laws.{push-blocked, pop-blocked}
use minifilter_monitor.Client.Session.{
  Drainer, checking, fetching, counting, pushing, closing, stopped, Writer, popping, writing,
  failing, failed, ended, Session, DrainStep, WriteStep, Reach,
}
use minifilter_monitor.Client.Session.Pipeline.{Inv, Reach-Inv}

-- A thread has a step to make.
abbrev pub CanStep : Session → Type 0
CanStep s = (t : Session) × (DrainStep s t ⊎ WriteStep s t)

-- Both loops have returned.
pub data IsOver (s : Session) : Type 0 where
  wrote_all : (b : List Record) → s.drainer ≡ stopped b → s.writer ≡ ended → IsOver s
  gave_up : (b r : List Record) (n : ℕ) → s.drainer ≡ stopped b → s.writer ≡ failed r n → IsOver s

pops_or_waits :
    (s : Session) (p : Popped (List Record))
    → pop s.queue ≡ p
    → s.writer ≡ popping
    → CanStep s ⊎ (pop s.queue ≡ Popped.blocked)
pops_or_waits s Popped.blocked e w = inr e
pops_or_waits s Popped.finished e w = inl (_, inr (WriteStep.ends w e refl))
pops_or_waits s (popped b q) e w = inl (_, inr (WriteStep.pops b q w e refl))

-- The writer has a step, or has returned, or waits at an empty open queue.
data Idle (s : Session) : Type 0 where
  returned : s.writer ≡ ended → Idle s
  broke : (r : List Record) (n : ℕ) → s.writer ≡ failed r n → Idle s
  waits : pop s.queue ≡ Popped.blocked → Idle s

writer_steps : (s : Session) (w : Writer) → s.writer ≡ w → CanStep s ⊎ Idle s
writer_steps s popping e = elim (pops_or_waits s (pop s.queue) refl e) [
  | inl c ↦ inl c
  | inr b ↦ inr (waits b)
]
writer_steps s (writing [] n) e = inl (_, inr (WriteStep.counts_written n e refl))
writer_steps s (writing (r ∷ rest) n) e = inl (_, inr (WriteStep.writes r rest n e refl))
writer_steps s (failing r n) e = inl (_, inr (WriteStep.gives_up r n e refl))
writer_steps s (failed r n) e = inr (broke r n e)
writer_steps s ended e = inr (returned e)

pushes_or_waits :
    (s : Session) (b : List Record) (p : Pushed (List Record))
    → push b s.queue ≡ p
    → s.drainer ≡ pushing b
    → CanStep s ⊎ (push b s.queue ≡ Pushed.blocked)
pushes_or_waits s b Pushed.blocked e d = inr e
pushes_or_waits s b refused e d = inl (_, inl (DrainStep.is_refused b d e refl))
pushes_or_waits s b (pushed q) e d = inl (_, inl (DrainStep.pushes b q d e refl))

-- An idle writer and a full open queue do not go together.
not_both_wait : (s : Session) (b : List Record) → Inv s → push b s.queue ≡ Pushed.blocked → ¬ Idle s
not_both_wait s b v full (returned e) =
    let (x, y) = push-blocked b s.queue full in let z = v.drained e in cc
not_both_wait s b v full (broke r n e) =
    let (x, y) = push-blocked b s.queue full in
    let z : s.queue.closed ≡ true = v.broken (rw e) in cc
not_both_wait s b v full (waits e) =
    let (x, y) = push-blocked b s.queue full in
    let (n, o) = pop-blocked s.queue e in omega (arith, v.room, x, ap length n)

stopped_steps : (s : Session) (b : List Record) → Inv s → s.drainer ≡ stopped b → Idle s → IsOver s
stopped_steps s b v d (returned e) = wrote_all b d e
stopped_steps s b v d (broke r n e) = gave_up b r n d e
stopped_steps s b v d (waits e) =
    let (n, o) = pop-blocked s.queue e in let z : s.queue.closed ≡ true = v.shut (rw d) in cc

drainer_steps : (s : Session) (d : Drainer) → Inv s → s.drainer ≡ d → IsOver s ⊎ CanStep s
drainer_steps s checking v e = elim (Bool-cases s.stop_requested) [
  | inl t ↦ inr (_, inl (DrainStep.stops e t refl))
  | inr f ↦ inr (_, inl (DrainStep.continues e f refl))
]
drainer_steps s fetching v e = inr (_, inl (DrainStep.fails e refl))
drainer_steps s (counting b) v e = inr (_, inl (DrainStep.counts b e refl))
drainer_steps s (closing b) v e = inr (_, inl (DrainStep.closes b e refl))
drainer_steps s (pushing b) v e = elim (pushes_or_waits s b (push b s.queue) refl e) [
  | inl c ↦ inr c
  | inr full ↦ elim (writer_steps s s.writer refl) [
    | inl c ↦ inr c
    | inr i ↦ absurd (not_both_wait s b v full i)
  ]
]
drainer_steps s (stopped b) v e = elim (writer_steps s s.writer refl) [
  | inl c ↦ inr c
  | inr i ↦ inl (stopped_steps s b v e i)
]

-- A capture does not deadlock: at every moment both loops have returned, or one of the two threads
-- can make a step (a call of GetRecords under way counts as one that returns), even when the queue
-- is full or empty and after the writer has failed.
pub no_deadlock : {s : Session} → Reach s → IsOver s ⊎ CanStep s
no_deadlock {s} r = drainer_steps s s.drainer (Reach-Inv r) refl
