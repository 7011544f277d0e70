-- ===== src/Driver/Records/Drains.antt =====
-- Drain of MiniMonFlt/src/records.cpp.
use minifilter_monitor.Common.{
  ℕ, zero, suc, ◌+◌, ◌-◌, ◌*◌, ◌/◌, ◌%◌, ◌≤◌, ◌<◌, ◌≡◌, refl, List, [], ◌∷◌, ◌++◌, Option, none,
  arith, ap, ◌∙◌, is_empty, if◌then◌else◌, ◌==◌, length, length-append, append-nil, append_assoc,
  take, drop,
}
use minifilter_monitor.Protocol.{Record, record_size}
use minifilter_monitor.Driver.Status.{NtStatus, success, buffer_too_small, no_more_entries}
use minifilter_monitor.Driver.Records.{Store, Drained, long_mod, drain_loop, drain}
use minifilter_monitor.Driver.Records.Bounds.{IsCounted, max_entries-lt}

-- What every run of the loop keeps, from the records already written and the bytes they took.
record Kept (buffer_size w : ℕ) (out l : List Record) (s : Store) (d : Drained) : Type 0 where
  order : d.written ++ d.store.list ≡ out ++ l
  size : d.written_size + length out * record_size ≡ w + length d.written * record_size
  fits : d.written_size ≤ buffer_size
  counted : d.store.allocated + length d.written ≡ s.allocated + length out
  dropped : d.store.dropped ≡ s.dropped
  sequence : d.store.sequence ≡ s.sequence
  cap : d.store.max_memory_kb ≡ s.max_memory_kb

drain_loop-Kept :
    (fault : ℕ → Option NtStatus) (buffer_size w : ℕ) (out l : List Record) (s : Store)
    → buffer_size < long_mod
    → w ≤ buffer_size
    → length l ≤ s.allocated
    → s.allocated < long_mod
    → Kept buffer_size w out l s (drain_loop fault buffer_size w out s l)
unfolding drain_loop
drain_loop-Kept fault b w out [] s hb hw hl ha = ground arith
drain_loop-Kept fault b w out (e ∷ l) s hb hw hl ha = ground (
  arith,
  append_assoc out (e ∷ []) l,
  length-append out (e ∷ []),
  drain_loop-Kept fault b ((w + record_size) % long_mod) (out ++ (e ∷ [])) l
      (record s { allocated = (s.allocated + long_mod - 1) % long_mod }),
)

-- Drain hands over a prefix of the buffer and keeps the rest, whatever exception a copy raises: no
-- record is lost, doubled or moved, the size it reports is that of the records it wrote, the caller's
-- buffer is not exceeded, and the counters stay right.
pub drain_splits :
    (fault : ℕ → Option NtStatus) (buffer_size held : ℕ) (s : Store)
    → buffer_size < long_mod
    → IsCounted held s
    → let d = drain fault buffer_size s in
      (d.written ++ d.store.list ≡ s.list)
      × (d.written_size ≡ length d.written * record_size)
      × (d.written_size ≤ buffer_size)
      × (d.store.allocated ≡ held + length d.store.list)
      × (d.store.dropped ≡ s.dropped)
      × (d.store.sequence ≡ s.sequence)
unfolding drain
drain_splits fault b held s hb v =
    let k =
      drain_loop-Kept fault b 0 [] s.list s hb (omega arith) (omega arith)
        (omega (arith, max_entries-lt s.max_memory_kb v.dword)) in
    let d = drain_loop fault b 0 [] s s.list in
    ground (arith, k, ap length k.order, length-append d.written d.store.list)

pub drain-IsCounted :
    (fault : ℕ → Option NtStatus) (buffer_size held : ℕ) (s : Store)
    → buffer_size < long_mod
    → IsCounted held s
    → IsCounted held (drain fault buffer_size s).store
unfolding drain
drain-IsCounted fault b held s hb v =
    let k =
      drain_loop-Kept fault b 0 [] s.list s hb (omega arith) (omega arith)
        (omega (arith, max_entries-lt s.max_memory_kb v.dword)) in
    let d = drain_loop fault b 0 [] s s.list in
    ground (arith, k, ap length k.order, length-append d.written d.store.list)

take_cons_at : (n m : ℕ) (e : Record) (l : List Record) → n ≡ suc m → take n (e ∷ l) ≡ e ∷ take m l
take_cons_at n m e l h = rw h

drop_cons_at : (n m : ℕ) (e : Record) (l : List Record) → n ≡ suc m → drop n (e ∷ l) ≡ drop m l
drop_cons_at n m e l h = rw h

take_none_at : (n : ℕ) (l : List Record) → n ≡ 0 → take n l ≡ []
take_none_at n l h = rw h

drop_none_at : (n : ℕ) (l : List Record) → n ≡ 0 → drop n l ≡ l
drop_none_at n l h = rw h

take-nil : (n : ℕ) → take {A = Record} n [] ≡ []
take-nil zero = refl
take-nil (suc n) = refl

drop-nil : (n : ℕ) → drop {A = Record} n [] ≡ []
drop-nil zero = refl
drop-nil (suc n) = refl

-- The loop when no copy faults.
drain_loop_exact :
    (b w : ℕ) (out l : List Record) (s : Store)
    → b < long_mod
    → w ≤ b
    → let d = drain_loop (λ _. none) b w out s l in
      (d.written ≡ out ++ take ((b - w) / record_size) l)
      × (d.store.list ≡ drop ((b - w) / record_size) l)
unfolding drain_loop
drain_loop_exact b w out [] s hb hw =
    ground
      (arith, append-nil out, take-nil ((b - w) / record_size), drop-nil ((b - w) / record_size))
drain_loop_exact b w out (e ∷ l) s hb hw =
    let k = (b - w) / record_size in
    let j = (b - (w + record_size)) / record_size in
    ground (
      arith,
      append-nil out,
      take_none_at k (e ∷ l),
      drop_none_at k (e ∷ l),
      take_cons_at k j e l,
      drop_cons_at k j e l,
      append_assoc out (e ∷ []) (take j l),
      drain_loop_exact b ((w + record_size) % long_mod) (out ++ (e ∷ [])) l
          (record s { allocated = (s.allocated + long_mod - 1) % long_mod }),
    )

drain_loop_status :
    (b w : ℕ) (out l : List Record) (s : Store)
    → b < long_mod
    → w ≤ b
    → let d = drain_loop (λ _. none) b w out s l in
      d.status ≡ (
        if d.written_size == 0
        then if is_empty l then no_more_entries else buffer_too_small
        else success)
unfolding drain_loop
drain_loop_status b w out [] s hb hw = ground arith
drain_loop_status b w out (e ∷ l) s hb hw = ground (
  arith,
  drain_loop-Kept (λ _. none) b ((w + record_size) % long_mod) (out ++ (e ∷ [])) l
      (record s { allocated = (s.allocated + long_mod - 1) % long_mod }),
  drain_loop_status b ((w + record_size) % long_mod) (out ++ (e ∷ [])) l
      (record s { allocated = (s.allocated + long_mod - 1) % long_mod }),
)

-- With a buffer that can be written, Drain returns as many records as fit, the oldest first, and
-- keeps the others. It succeeds if it returns any; otherwise the status tells an empty list from a
-- buffer too small for one record.
pub drain_takes_what_fits :
    (buffer_size : ℕ) (s : Store)
    → buffer_size < long_mod
    → let d = drain (λ _. none) buffer_size s in
      (d.written ≡ take (buffer_size / record_size) s.list)
      × (d.store.list ≡ drop (buffer_size / record_size) s.list)
      × (d.status ≡ (
          if d.written_size == 0
          then if is_empty s.list then no_more_entries else buffer_too_small
          else success))
unfolding drain
drain_takes_what_fits b s hb =
    let (taken, kept) = drain_loop_exact b 0 [] s.list s hb (omega arith) in
    let room : b - 0 ≡ b = omega arith in
    (
      taken ∙ ap (λ k. take (k / record_size) s.list) room,
      kept ∙ ap (λ k. drop (k / record_size) s.list) room,
      drain_loop_status b 0 [] s.list s hb (omega arith),
    )
