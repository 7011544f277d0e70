-- ===== src/Driver/Records/Bounds.antt =====
-- The counters of MiniMonFlt/src/records.cpp, call by call.
use minifilter_monitor.Common.{
  ℕ, suc, ◌+◌, ◌-◌, ◌^◌, ◌≤◌, ◌<◌, ◌≡◌, Bool, List, [], ◌∷◌, Option, none, some, arith, length,
  length-append, ◌⊎◌,
}
use minifilter_monitor.Protocol.{Record}
use minifilter_monitor.Driver.Records.{
  Store, max_entries, long_mod, create_entry, delete_entry, append, clear_loop, clear, increment,
}

-- The store beside the entries that callers own: the counter counts both, and the cap holds.
pub record IsCounted (held : ℕ) (s : Store) : Type 0 where
  pub dword : s.max_memory_kb < 2 ^ 32
  pub counted : s.allocated ≡ held + length s.list
  pub capped : s.allocated ≤ max_entries s.max_memory_kb

-- Whatever DWORD the registry holds, one more entry than the cap still fits a LONG.
pub max_entries-lt : (kb : ℕ) → kb < 2 ^ 32 → max_entries kb + 1 < 2 ^ 31
max_entries-lt kb h = omega arith

-- An entry, if there is one, is one more in the caller's hands.
abbrev pub count : Option Record → ℕ
count none = 0
count (some e) = 1

pub create_entry-IsCounted :
    (pool_ok : Bool) (held : ℕ) (s : Store)
    → IsCounted held s
    → let (e, s') = create_entry pool_ok s in IsCounted (held + count e) s'
unfolding create_entry
create_entry-IsCounted pool_ok held s v = ground arith

-- CreateEntry leaves the list alone. It either counts a drop, or hands out an entry that is zero but
-- for the next sequence number.
pub create_entry_cases :
    (pool_ok : Bool) (s : Store)
    → let (e, s') = create_entry pool_ok s in
      (s'.list ≡ s.list)
      × (((e ≡ none) × (s'.dropped ≡ increment s.dropped) × (s'.sequence ≡ s.sequence))
          ⊎ ((r : Record) × (e ≡ some r)
              × (r.sequence_number ≡ increment s.sequence)
              × (s'.sequence ≡ increment s.sequence)
              × (s'.dropped ≡ s.dropped)))
unfolding create_entry
create_entry_cases pool_ok s = ground arith

pub delete_entry-IsCounted :
    (held : ℕ) (s : Store) → IsCounted (suc held) s → IsCounted held (delete_entry s)
unfolding delete_entry
delete_entry-IsCounted held s v = ground arith

pub append-IsCounted :
    (e : Record) (held : ℕ) (s : Store) → IsCounted (suc held) s → IsCounted held (append e s)
unfolding append
append-IsCounted e held s v =
    ground (arith, length-append s.list (record e { dropped_records = s.dropped } ∷ []))

-- The loop of Clear takes as many entries off the counter as it finds.
clear_loop_lem :
    (l : List Record) (s : Store)
    → length l ≤ s.allocated
    → s.allocated < long_mod
    → clear_loop l s ≡ record s { list = []; allocated = s.allocated - length l }
unfolding clear_loop
clear_loop_lem [] s h k = ground arith
clear_loop_lem (e ∷ l) s h k = ground (arith, clear_loop_lem l (delete_entry s))

-- Clear empties the list and the drop count, and leaves the callers' entries counted.
pub clear-IsCounted :
    (held : ℕ) (s : Store)
    → IsCounted held s
    → IsCounted held (clear s)
      × ((clear s).list ≡ [])
      × ((clear s).dropped ≡ 0)
      × ((clear s).allocated ≡ held)
      × ((clear s).sequence ≡ s.sequence)
unfolding clear
clear-IsCounted held s v =
    ground (arith, clear_loop_lem s.list s, max_entries-lt s.max_memory_kb v.dword)
