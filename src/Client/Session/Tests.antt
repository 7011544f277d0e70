-- ===== src/Client/Session/Tests.antt =====
-- A capture of one record, and the theorems of the session on it.
use minifilter_monitor.Common.{◌≤◌, ◌≡◌, refl, true, List, [], ◌∷◌, ◌++◌, ◌⊎◌, length, flatten}
use minifilter_monitor.Protocol.{Record, zero_record}
use minifilter_monitor.Client.Queue.{push, pop, close}
use minifilter_monitor.Client.Session.{
  stopped, ended, Session, opening, batch_count, DrainStep, WriteStep, Step, Reach, here, next,
  drains, interrupted, pushing,
}
use minifilter_monitor.Client.Session.Pipeline.{
  in_hand, unwritten, has_stopped, output_is_prefix, all_written,
}
use minifilter_monitor.Client.Session.Progress.{IsOver, CanStep, no_deadlock}

abbrev one : List Record
one = zero_record ∷ []

-- The batch is fetched and about to be pushed.
abbrev fetched_one : Session
fetched_one = record opening { drainer = pushing one; captured = 1; fetched = one }

fetched_one-Reach : Reach fetched_one
fetched_one-Reach =
    next
      (next (next here (drains (DrainStep.continues refl refl refl)))
        (drains (DrainStep.fetches zero_record [] refl refl)))
      (drains (DrainStep.counts one refl refl))

-- Ctrl+C came behind the push; the writer has drained the queue.
abbrev closed_after_one : Session
closed_after_one = record opening {
  queue = close opening.queue;
  stop_requested = true;
  drainer = stopped [];
  writer = ended;
  captured = 1;
  written = 1;
  output = one;
  fetched = one;
}

closed_after_one-Reach : Reach closed_after_one
unfolding push pop close
closed_after_one-Reach =
    let pushed_one = next fetched_one-Reach (drains (DrainStep.pushes one _ refl refl refl)) in
    let popped_one = next pushed_one (Step.writes (WriteStep.pops one _ refl refl refl)) in
    let written_one = next popped_one (Step.writes (WriteStep.writes zero_record [] 1 refl refl)) in
    let counted = next written_one (Step.writes (WriteStep.counts_written 1 refl refl)) in
    let signalled = next counted (interrupted refl) in
    let stopping = next signalled (drains (DrainStep.stops refl refl refl)) in
    let closed = next stopping (drains (DrainStep.closes [] refl refl)) in
    next closed (Step.writes (WriteStep.ends refl refl refl))

output_is_prefix_example :
    (fetched_one.output
        ++ (unwritten fetched_one.writer
            ++ (flatten fetched_one.queue.items ++ in_hand fetched_one.drainer))
      ≡ one)
    × (length fetched_one.queue.items ≤ batch_count)
output_is_prefix_example = output_is_prefix fetched_one-Reach

all_written_example :
    (has_stopped closed_after_one.drainer ≡ true)
    × (closed_after_one.output ≡ one)
    × (closed_after_one.written ≡ 1)
    × (closed_after_one.captured ≡ 1)
all_written_example = all_written closed_after_one-Reach refl

no_deadlock_example : IsOver fetched_one ⊎ CanStep fetched_one
no_deadlock_example = no_deadlock fetched_one-Reach
