-- ===== src/Driver/Records/Tests.antt =====
-- Runs of MiniMonFlt/src/records.cpp, and its theorems at concrete stores.
use minifilter_monitor.Common.{
  ℕ, ◌+◌, ◌*◌, ◌^◌, ◌≤◌, ◌<◌, ◌≡◌, refl, true, false, [], ◌∷◌, ◌++◌, none, some, arith, length,
  take, ltb,
}
use minifilter_monitor.Protocol.{Record, zero_record, record_size}
use minifilter_monitor.Driver.Status.{buffer_too_small, other}
use minifilter_monitor.Driver.Records.{
  Store, max_entries, create_entry, append, remove_head, drain, clear, default_max_memory_kb,
}
use minifilter_monitor.Driver.Records.Bounds.{IsCounted, clear-IsCounted}
use minifilter_monitor.Driver.Records.Drains.{drain_splits, drain_takes_what_fits}
use minifilter_monitor.Driver.Records.Threads.{
  System, Reach, here, next, claim, obtain, appends, removes, resets, started, live, stamp,
  cap_holds,
}
use minifilter_monitor.Driver.Records.Threads.Contents.{records_conserved, order_kept}
use mathlib.Core.List.{Perm}

abbrev numbered : ℕ → Record
numbered n = record zero_record { sequence_number = n }

-- Two records listed and one in a callback's hands, under a cap of three.
abbrev busy : Store
busy = record {
  list = numbered 1 ∷ numbered 2 ∷ [];
  allocated = 3;
  dropped = 4;
  sequence = 3;
  created = true;
  max_memory_kb = 9;
}

busy-IsCounted : IsCounted 1 busy
busy-IsCounted = omega arith

default_cap : max_entries default_max_memory_kb ≡ 17857
default_cap = refl

-- At the cap a request is refused and counted as a drop.
create_entry_refused : create_entry true busy ≡ (none, record busy { dropped = 5 })
unfolding create_entry
create_entry_refused = refl

drain_one : (drain (λ _. none) 3000 busy).written ≡ numbered 1 ∷ []
unfolding drain
drain_one = refl

drain_small : (drain (λ _. none) 100 busy).status ≡ buffer_too_small
unfolding drain
drain_small = refl

-- The second copy faults: the first record is written, the second one stays.
drain_fault :
    let d = drain (λ w. elim (ltb 0 w) [ true ↦ some (other false 5) | false ↦ none ]) 9000 busy in
    (d.status ≡ other false 5) × (d.store.list ≡ numbered 2 ∷ [])
unfolding drain
drain_fault = (refl, refl)

clear-IsCounted_example :
    IsCounted 1 (clear busy)
    × ((clear busy).list ≡ [])
    × ((clear busy).dropped ≡ 0)
    × ((clear busy).allocated ≡ 1)
    × ((clear busy).sequence ≡ 3)
clear-IsCounted_example = clear-IsCounted 1 busy busy-IsCounted

drain_splits_example :
    let d = drain (λ _. some (other false 5)) 9000 busy in
    (d.written ++ d.store.list ≡ busy.list)
    × (d.written_size ≡ length d.written * record_size)
    × (d.written_size ≤ 9000)
    × (d.store.allocated ≡ 1 + length d.store.list)
    × (d.store.dropped ≡ 4)
    × (d.store.sequence ≡ 3)
drain_splits_example =
    drain_splits (λ _. some (other false 5)) 9000 1 busy (omega arith) busy-IsCounted

drain_takes_what_fits_example : (drain (λ _. none) 3000 busy).written ≡ take 1 busy.list
drain_takes_what_fits_example = (drain_takes_what_fits 3000 busy (omega arith)).0

-- One thread has appended a record and the drainer has taken it off the list.
abbrev first : Record
first = stamp (started 9).store zero_record

abbrev draining : System
draining = record (started 9) {
  store = record ((started 9).store) { allocated = 1; sequence = 1 };
  removed = first ∷ [];
  appended = first ∷ [];
}

draining-Reach : Reach 1 1 (started 9) draining
unfolding append remove_head
draining-Reach =
    next
      (next (next (next here (claim (omega arith) refl refl)) (obtain 0 refl refl))
        (appends zero_record 0 refl refl))
      (removes (omega arith) refl)

cap_holds_example :
    (draining.store.allocated ≡ draining.rejected + live draining)
    × (draining.store.allocated < 2 ^ 31)
    × (live draining ≤ max_entries 9)
cap_holds_example = cap_holds (omega arith) (omega arith) draining-Reach

-- While that entry is in its hands, a second removal finds an empty list, and a drop is forgotten.
abbrev overlapping : System
overlapping = record draining { store = record (draining.store) { dropped = 0 } }

overlapping-Reach : Reach 1 2 (started 9) overlapping
unfolding append remove_head
overlapping-Reach =
    next
      (next
        (next
          (next (next (next here (claim (omega arith) refl refl)) (obtain 0 refl refl))
            (appends zero_record 0 refl refl))
          (removes (omega arith) refl))
        (removes (omega arith) refl))
      (resets refl)

records_conserved_example :
    Perm (overlapping.taken ++ (overlapping.removed ++ overlapping.store.list)) (first ∷ [])
records_conserved_example = records_conserved overlapping-Reach

order_kept_example : draining.taken ++ (draining.removed ++ draining.store.list) ≡ first ∷ []
order_kept_example = order_kept draining-Reach
