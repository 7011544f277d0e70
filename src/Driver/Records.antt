-- ===== src/Driver/Records.antt =====
-- MiniMonFlt/src/records.cpp and the cap of MiniMonFlt/src/config.cpp: the buffer of trace records
-- that the client drains. Each function here runs the code of one call without interruption;
-- Records/Threads.antt has the steps in which the calls of several threads interleave.
pub mod Bounds
pub mod Drains
pub mod Threads
mod Tests
use minifilter_monitor.Common.{
  ℕ, zero, suc, ◌+◌, ◌-◌, ◌*◌, ◌/◌, ◌%◌, ◌^◌, Bool, true, false, List, [], ◌∷◌, ◌++◌, Option, none,
  some, ltb, ◌==◌, if◌then◌else◌,
}
use minifilter_monitor.Protocol.{Record, zero_record, record_size}
use minifilter_monitor.Driver.Status.{NtStatus, success, buffer_too_small, no_more_entries}

-- An `Entry` is its record: the links are the list that holds it. The counters are LONGs, kept as
-- the bit patterns that InterlockedIncrement leaves; `max_memory_kb` is config's MaxMemoryKb.
pub record Store : Type 0 where
  pub list : List Record
  pub allocated : ℕ
  pub dropped : ℕ
  pub sequence : ℕ
  pub created : Bool
  pub max_memory_kb : ℕ

abbrev pub long_mod : ℕ
long_mod = 2 ^ 32

abbrev pub default_max_memory_kb : ℕ
default_max_memory_kb = 50 * 1024

-- InterlockedIncrement and InterlockedDecrement.
abbrev pub increment : ℕ → ℕ
increment n = (n + 1) % long_mod

abbrev pub decrement : ℕ → ℕ
decrement n = (n + long_mod - 1) % long_mod

-- static_cast<ULONGLONG> of a LONG extends the sign.
abbrev pub to_ulonglong : ℕ → ℕ
to_ulonglong n = if ltb n (2 ^ 31) then n else n + (2 ^ 64 - 2 ^ 32)

-- sizeof(records::Entry): a LIST_ENTRY of two pointers and a Record, on x64.
abbrev pub entry_size : ℕ
entry_size = 2 * 8 + record_size

abbrev pub max_entries : ℕ → ℕ
max_entries kb = kb * 1024 / entry_size

abbrev pub over_limit : ℕ → ℕ → Bool
over_limit kb count = ltb (max_entries kb) (to_ulonglong count)

-- Whether the entry was allocated; `pool_ok` says whether the lookaside list had memory.
unfoldable pub allocate_entry : Bool → Store → Bool × Store
allocate_entry pool_ok s =
    let count = increment s.allocated in
    if over_limit s.max_memory_kb count
    then (false, record s { allocated = decrement count })
    else if pool_ok
    then (true, record s { allocated = count })
    else (false, record s { allocated = decrement count })

unfoldable pub free_entry : Store → Store
free_entry s = record s { allocated = decrement s.allocated }

unfoldable pub remove_head : Store → Option Record × Store
remove_head s = elim s.list [ [] ↦ (none, s) | e ∷ rest ↦ (some e, record s { list = rest }) ]

unfoldable pub insert_head : Record → Store → Store
insert_head e s = record s { list = e ∷ s.list }

unfoldable pub create : Store → Store
create s = if s.created then s else record s { list = []; created = true }

-- A fresh entry is zeroed and takes the next sequence number; a refusal is counted as a drop.
unfoldable pub create_entry : Bool → Store → Option Record × Store
unfolding allocate_entry
create_entry pool_ok s =
    let (allocated, s') = allocate_entry pool_ok s in
    if allocated
    then (
      some (record zero_record { sequence_number = increment s'.sequence }),
      record s' { sequence = increment s'.sequence },
    )
    else (none, record s' { dropped = increment s'.dropped })

unfoldable pub delete_entry : Store → Store
unfolding free_entry
delete_entry s = free_entry s

unfoldable pub append : Record → Store → Store
append e s = record s { list = s.list ++ (record e { dropped_records = s.dropped } ∷ []) }

-- What Drain leaves: its status, *pWrittenSize, the records in the caller's buffer and the store.
pub record Drained : Type 0 where
  pub status : NtStatus
  pub written_size : ℕ
  pub written : List Record
  pub store : Store

-- The loop of Drain over the entries still listed. `fault w` is the exception that the copy to
-- offset `w` of the caller's buffer raises, if any. ULONG differences wrap.
unfoldable pub drain_loop :
    (ℕ → Option NtStatus) → ℕ → ℕ → List Record → Store → List Record → Drained
drain_loop fault buffer_size written_size out s [] = record {
  status = if written_size == 0 then no_more_entries else success;
  written_size = written_size;
  written = out;
  store = record s { list = [] };
}
drain_loop fault buffer_size written_size out s (e ∷ rest) =
    if ltb ((buffer_size + long_mod - written_size) % long_mod) record_size
    then record {
      status = if written_size == 0 then buffer_too_small else success;
      written_size = written_size;
      written = out;
      store = record s { list = e ∷ rest };
    }
    else elim (fault written_size) [
      | some code ↦ record {
        status = code;
        written_size = written_size;
        written = out;
        store = record s { list = e ∷ rest };
      }
      | none ↦
          drain_loop fault buffer_size ((written_size + record_size) % long_mod) (out ++ (e ∷ []))
            (record s { allocated = decrement s.allocated }) rest
    ]

unfoldable pub drain : (ℕ → Option NtStatus) → ℕ → Store → Drained
unfolding drain_loop
drain fault buffer_size s = drain_loop fault buffer_size 0 [] s s.list

-- The loop of Clear: one DeleteEntry for each entry.
unfoldable pub clear_loop : List Record → Store → Store
unfolding delete_entry
clear_loop [] s = record s { list = [] }
clear_loop (e ∷ rest) s = clear_loop rest (delete_entry s)

unfoldable pub clear : Store → Store
unfolding clear_loop
clear s = record (clear_loop s.list s) { dropped = 0 }

unfoldable pub delete : Store → Store
unfolding clear
delete s = if s.created then record (clear s) { created = false } else s
