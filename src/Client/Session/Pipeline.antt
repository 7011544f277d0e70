-- ===== src/Client/Session/Pipeline.antt =====
-- MiniMonClient/src/main.cpp: the records between GetRecords and the output.
use minifilter_monitor.Common.{
  ℕ, ◌+◌, ◌≤◌, ◌≡◌, Bool, true, false, List, [], ◌∷◌, ◌++◌, ◌⊎◌, length, arith, length-append,
  append-nil, append_assoc, flatten, flatten-snoc,
}
use minifilter_monitor.Protocol.{Record}
use minifilter_monitor.Client.Queue.{push, pop, close}
use minifilter_monitor.Client.Queue.Laws.{pop-popped}
use minifilter_monitor.Client.Session.{
  Drainer, checking, fetching, counting, pushing, closing, stopped, Writer, writing, failing,
  failed, ended, Session, batch_count, DrainStep, WriteStep, Step, Reach, here, next, drains,
  interrupted,
}

abbrev pub in_hand : Drainer → List Record
in_hand checking = []
in_hand fetching = []
in_hand (counting b) = b
in_hand (pushing b) = b
in_hand (closing b) = b
in_hand (stopped b) = b

-- A batch that the queue refused.
abbrev pub turned_away : Drainer → List Record
turned_away (closing b) = b
turned_away (stopped b) = b
turned_away _ = []

abbrev pub uncounted : Drainer → ℕ
uncounted (counting b) = length b
uncounted _ = 0

abbrev pub has_stopped : Drainer → Bool
has_stopped (stopped b) = true
has_stopped _ = false

abbrev pub unwritten : Writer → List Record
unwritten (writing r n) = r
unwritten (failing r n) = r
unwritten (failed r n) = r
unwritten _ = []

abbrev pub batch_size : Writer → ℕ
batch_size (writing r n) = n
batch_size (failing r n) = n
batch_size (failed r n) = n
batch_size _ = 0

abbrev pub has_failed : Writer → Bool
has_failed (failed r n) = true
has_failed _ = false

-- Everything fetched stands in the file, with the writer, in the queue or with the drainer.
pub record Inv (s : Session) : Type 0 where
  pub order :
      s.output ++ (unwritten s.writer ++ (flatten s.queue.items ++ in_hand s.drainer)) ≡ s.fetched
  pub bounded : length s.queue.items ≤ s.queue.max_item_count
  pub room : s.queue.max_item_count ≡ batch_count
  pub closer : s.queue.closed ≡ true → (has_stopped s.drainer ≡ true) ⊎ (has_failed s.writer ≡ true)
  pub refused_late : (turned_away s.drainer ≡ []) ⊎ (has_failed s.writer ≡ true)
  pub drained : s.writer ≡ ended → (s.queue.closed ≡ true) × (s.queue.items ≡ [])
  pub broken : has_failed s.writer ≡ true → s.queue.closed ≡ true
  pub shut : has_stopped s.drainer ≡ true → s.queue.closed ≡ true
  pub capture_count : s.captured + uncounted s.drainer ≡ length s.fetched
  pub write_count : s.written + batch_size s.writer ≡ length s.output + length (unwritten s.writer)

-- More records join at the end of the line.
joins : (o u f n : List Record) → (o ++ (u ++ (f ++ []))) ++ n ≡ o ++ (u ++ (f ++ n))
joins o u f n = simp (append_assoc, append-nil)

-- A record goes from the front of the writer's batch to the file.
moves : (o u f : List Record) (r : Record) → (o ++ (r ∷ [])) ++ (u ++ f) ≡ o ++ ((r ∷ u) ++ f)
moves o u f r = append_assoc o (r ∷ []) (u ++ f)

DrainStep-Inv : {s t : Session} → DrainStep s t → Inv s → Inv t
unfolding push close
DrainStep-Inv (DrainStep.continues a b e) v = ground arith
DrainStep-Inv (DrainStep.stops a b e) v = ground arith
DrainStep-Inv (DrainStep.fails a e) v = ground arith
DrainStep-Inv (DrainStep.fetches_none a e) v = ground arith
DrainStep-Inv {s} (DrainStep.fetches r b a e) v = ground (
  arith,
  joins s.output (unwritten s.writer) (flatten s.queue.items) (r ∷ b),
  length-append s.fetched (r ∷ b),
)
DrainStep-Inv (DrainStep.counts b a e) v = ground arith
DrainStep-Inv {s} (DrainStep.pushes b q a p e) v = ground (
  arith,
  flatten-snoc s.queue.items b,
  append-nil (flatten s.queue.items ++ b),
  length-append s.queue.items (b ∷ []),
)
DrainStep-Inv (DrainStep.is_refused b a p e) v = ground arith
DrainStep-Inv (DrainStep.closes b a e) v = ground arith

WriteStep-Inv : {s t : Session} → WriteStep s t → Inv s → Inv t
unfolding pop close
WriteStep-Inv {s} (WriteStep.pops b q a p e) v =
    let l = pop-popped s.queue q p in
    ground (arith, l, append_assoc b (flatten q.items) (in_hand s.drainer))
WriteStep-Inv {s} (WriteStep.ends a p e) v = ground arith
WriteStep-Inv {s} (WriteStep.writes r rest n a e) v = ground (
  arith,
  moves s.output rest (flatten s.queue.items ++ in_hand s.drainer) r,
  length-append s.output (r ∷ []),
)
WriteStep-Inv (WriteStep.write_fails r rest n a e) v = ground arith
WriteStep-Inv (WriteStep.gives_up rest n a e) v = ground arith
WriteStep-Inv (WriteStep.counts_written n a e) v = ground arith

Step-Inv : {s t : Session} → Step s t → Inv s → Inv t
Step-Inv (drains d) v = DrainStep-Inv d v
Step-Inv (Step.writes w) v = WriteStep-Inv w v
Step-Inv (interrupted e) v = ground arith

pub Reach-Inv : {s : Session} → Reach s → Inv s
Reach-Inv here = ground arith
Reach-Inv (next r st) = Step-Inv st (Reach-Inv r)

-- At every moment of a capture the output file is a prefix of what GetRecords has returned, and what
-- is missing is with the writer, in the queue (within its 256 batches) or with the drainer.
pub output_is_prefix :
    {s : Session}
    → Reach s
    → (s.output ++ (unwritten s.writer ++ (flatten s.queue.items ++ in_hand s.drainer)) ≡ s.fetched)
      × (length s.queue.items ≤ batch_count)
output_is_prefix r = let v = Reach-Inv r in (v.order, omega (arith, v.bounded, v.room))

-- When the writer returns true, the drainer has stopped, every record fetched is in the file, in
-- order and once, and both counts that the client reports are the number of records in the file.
pub all_written :
    {s : Session}
    → Reach s
    → s.writer ≡ ended
    → (has_stopped s.drainer ≡ true)
      × (s.output ≡ s.fetched)
      × (s.written ≡ length s.output)
      × (s.captured ≡ length s.output)
all_written {s} r e =
    let v = Reach-Inv r in
    let (closed, empty) = v.drained e in
    ground (
      arith,
      v.closer closed,
      append-nil s.output,
      v.order,
      v.refused_late,
      v.capture_count,
      v.write_count,
    )
