-- ===== src/Client/Session.antt =====
-- MiniMonClient/src/main.cpp: the drainer (DrainLoop) and the writer (WriteLoop), which run on two
-- threads over one queue, one counter and the flag stopRequested. A step is what a thread does
-- between two points at which the other can be seen; Ctrl+C is a step of its own.
pub mod Pipeline
pub mod Progress
mod Tests
use minifilter_monitor.Common.{
  ℕ, suc, ◌+◌, ◌≡◌, Bool, true, false, List, [], ◌∷◌, ◌++◌, ◌||◌, Option, none, some, length,
}
use minifilter_monitor.Protocol.{Record}
use minifilter_monitor.Client.Queue.{
  Queue, Pushed, Popped, new, push, pop, close, refused, pushed, popped,
}

abbrev pub batch_count : ℕ
batch_count = 256

-- Where DrainLoop stands. `counting` and `pushing` hold the batch; `closing` and `stopped` the batch
-- that the queue refused, if it did.
pub data Drainer : Type 0 where
  checking fetching : Drainer
  counting pushing closing stopped : List Record → Drainer

-- Where WriteLoop stands. `writing` holds what WriteRecords still has to write of the batch and the
-- batch's size; `failing` and `failed` what it could not write.
pub data Writer : Type 0 where
  popping : Writer
  writing failing failed : List Record → ℕ → Writer
  ended : Writer

-- `output` is what Sink::Write has accepted, in order; `fetched` is what GetRecords has returned.
pub record Session : Type 0 where
  pub queue : Queue (List Record)
  pub stop_requested : Bool
  pub drainer : Drainer
  pub writer : Writer
  pub captured : ℕ
  pub written : ℕ
  pub output : List Record
  pub fetched : List Record

abbrev pub opening : Session
opening = record {
  queue = new batch_count;
  stop_requested = false;
  drainer = checking;
  writer = popping;
  captured = 0;
  written = 0;
  output = [];
  fetched = [];
}

-- A step of DrainLoop.
pub data DrainStep (s t : Session) : Type 0 where
  continues :
      s.drainer ≡ checking
      → s.stop_requested ≡ false
      → t ≡ record s { drainer = fetching }
      → DrainStep s t
  stops :
      s.drainer ≡ checking
      → s.stop_requested ≡ true
      → t ≡ record s { drainer = closing [] }
      → DrainStep s t
  fails : s.drainer ≡ fetching → t ≡ record s { drainer = closing [] } → DrainStep s t
  fetches_none : s.drainer ≡ fetching → t ≡ record s { drainer = checking } → DrainStep s t
  fetches :
      (r : Record) (batch : List Record)
      → s.drainer ≡ fetching
      → t ≡ record s { drainer = counting (r ∷ batch); fetched = s.fetched ++ (r ∷ batch) }
      → DrainStep s t
  counts :
      (batch : List Record)
      → s.drainer ≡ counting batch
      → t ≡ record s { drainer = pushing batch; captured = s.captured + length batch }
      → DrainStep s t
  pushes :
      (batch : List Record) (q : Queue (List Record))
      → s.drainer ≡ pushing batch
      → push batch s.queue ≡ pushed q
      → t ≡ record s { drainer = checking; queue = q }
      → DrainStep s t
  is_refused :
      (batch : List Record)
      → s.drainer ≡ pushing batch
      → push batch s.queue ≡ refused
      → t ≡ record s { drainer = closing batch }
      → DrainStep s t
  closes :
      (batch : List Record)
      → s.drainer ≡ closing batch
      → t ≡ record s { drainer = stopped batch; queue = close s.queue }
      → DrainStep s t

-- A step of WriteLoop.
pub data WriteStep (s t : Session) : Type 0 where
  pops :
      (batch : List Record) (q : Queue (List Record))
      → s.writer ≡ popping
      → pop s.queue ≡ popped batch q
      → t ≡ record s { writer = writing batch (length batch); queue = q }
      → WriteStep s t
  ends :
      s.writer ≡ popping
      → pop s.queue ≡ Popped.finished
      → t ≡ record s { writer = ended }
      → WriteStep s t
  writes :
      (r : Record) (rest : List Record) (n : ℕ)
      → s.writer ≡ writing (r ∷ rest) n
      → t ≡ record s { writer = writing rest n; output = s.output ++ (r ∷ []) }
      → WriteStep s t
  write_fails :
      (r : Record) (rest : List Record) (n : ℕ)
      → s.writer ≡ writing (r ∷ rest) n
      → t ≡ record s { writer = failing (r ∷ rest) n; stop_requested = true }
      → WriteStep s t
  gives_up :
      (rest : List Record) (n : ℕ)
      → s.writer ≡ failing rest n
      → t ≡ record s { writer = failed rest n; queue = close s.queue }
      → WriteStep s t
  counts_written :
      (n : ℕ)
      → s.writer ≡ writing [] n
      → t ≡ record s { writer = popping; written = s.written + n }
      → WriteStep s t

pub data Step (s t : Session) : Type 0 where
  drains : DrainStep s t → Step s t
  writes : WriteStep s t → Step s t
  interrupted : t ≡ record s { stop_requested = true } → Step s t

pub data Reach : Session → Type 0 where
  here : Reach opening
  next : {s t : Session} → Reach s → Step s t → Reach t
