-- ===== src/Driver/Records/Threads.antt =====
-- MiniMonFlt/src/records.cpp with its callers on several threads. One step is one interlocked
-- operation or one stretch under RecordListLock; any thread may take the next one. The callbacks
-- create, append and delete entries, and Drain and Clear remove them, all concurrently: DisconnectNotify
-- clears the list after the port is free again, so that its Clear may overlap the calls of the next
-- client.
pub mod Contents
use minifilter_monitor.Common.{
  ℕ, suc, ◌+◌, ◌^◌, ◌≤◌, ◌<◌, ◌≡◌, true, false, List, [], ◌∷◌, ◌++◌, Option, none, some, arith,
  length, length-append, append_assoc,
}
use minifilter_monitor.Protocol.{Record}
use minifilter_monitor.Driver.Records.{
  Store, max_entries, over_limit, increment, free_entry, remove_head, insert_head, append,
}
use minifilter_monitor.Driver.Records.Bounds.{max_entries-lt}

-- The store and where the threads stand. `claimed`: in AllocateEntry past the cap's test;
-- `rejected`: about to take their increment back; `dropping`: about to count the drop; `held`:
-- entries in the hands of a callback; `freeing`: entries taken off the counter whose memory is still
-- to be freed; `removed`: the entries between RemoveHead and InsertHead or
-- DeleteEntry, one for each removal that holds one. `appended` and
-- `taken` are the histories of Append and of the removals that were not undone.
pub record System : Type 0 where
  pub store : Store
  pub claimed : ℕ
  pub rejected : ℕ
  pub dropping : ℕ
  pub held : ℕ
  pub freeing : ℕ
  pub removed : List Record
  pub appended : List Record
  pub taken : List Record

abbrev pub stamp : Store → Record → Record
stamp st e = record e { dropped_records = st.dropped }

abbrev pub listed : Option Record → List Record → List Record
listed none l = l
listed (some e) l = e ∷ l

-- The steps, with at most `threads` calls of AllocateEntry and at most `removals` entries in the hands
-- of Drain and Clear at a time.
pub data Step (threads removals : ℕ) (s t : System) : Type 0 where
  claim :
      s.claimed + s.rejected < threads
      → over_limit s.store.max_memory_kb (increment s.store.allocated) ≡ false
      → t ≡ record s {
        store = record (s.store) { allocated = increment s.store.allocated };
        claimed = suc s.claimed;
      }
      → Step threads removals s t
  refuse :
      s.claimed + s.rejected < threads
      → over_limit s.store.max_memory_kb (increment s.store.allocated) ≡ true
      → t ≡ record s {
        store = record (s.store) { allocated = increment s.store.allocated };
        rejected = suc s.rejected;
      }
      → Step threads removals s t
  no_memory :
      (c : ℕ)
      → s.claimed ≡ suc c
      → t ≡ record s { claimed = c; rejected = suc s.rejected }
      → Step threads removals s t
  give_up :
      (r : ℕ)
      → s.rejected ≡ suc r
      → t ≡ record s { store = free_entry s.store; rejected = r; dropping = suc s.dropping }
      → Step threads removals s t
  count_drop :
      (d : ℕ)
      → s.dropping ≡ suc d
      → t ≡ record s {
        store = record (s.store) { dropped = increment s.store.dropped };
        dropping = d;
      }
      → Step threads removals s t
  obtain :
      (c : ℕ)
      → s.claimed ≡ suc c
      → t ≡ record s {
        store = record (s.store) { sequence = increment s.store.sequence };
        claimed = c;
        held = suc s.held;
      }
      → Step threads removals s t
  appends :
      (e : Record) (h : ℕ)
      → s.held ≡ suc h
      → t ≡ record s {
        store = append e s.store;
        held = h;
        appended = s.appended ++ (stamp s.store e ∷ []);
      }
      → Step threads removals s t
  deletes :
      (h : ℕ)
      → s.held ≡ suc h
      → t ≡ record s { store = free_entry s.store; held = h; freeing = suc s.freeing }
      → Step threads removals s t
  frees : (f : ℕ) → s.freeing ≡ suc f → t ≡ record s { freeing = f } → Step threads removals s t
  removes :
      length s.removed < removals
      → t ≡ record s {
        store = (remove_head s.store).1;
        removed = listed (remove_head s.store).0 s.removed;
      }
      → Step threads removals s t
  puts_back :
      (e : Record) (xs ys : List Record)
      → s.removed ≡ xs ++ (e ∷ ys)
      → t ≡ record s { store = insert_head e s.store; removed = xs ++ ys }
      → Step threads removals s t
  takes :
      (e : Record) (xs ys : List Record)
      → s.removed ≡ xs ++ (e ∷ ys)
      → t ≡ record s {
        store = free_entry s.store;
        removed = xs ++ ys;
        freeing = suc s.freeing;
        taken = s.taken ++ (e ∷ []);
      }
      → Step threads removals s t
  resets : t ≡ record s { store = record (s.store) { dropped = 0 } } → Step threads removals s t

pub data Reach (threads removals : ℕ) (s : System) : System → Type 0 where
  here : Reach threads removals s s
  next :
      {t u : System}
      → Reach threads removals s t
      → Step threads removals t u
      → Reach threads removals s u

-- The entries that exist: claimed, held, removed or listed.
abbrev pub live : System → ℕ
live s = s.claimed + s.held + length s.removed + length s.store.list

pub record Inv (threads kb : ℕ) (s : System) : Type 0 where
  pub same_cap : s.store.max_memory_kb ≡ kb
  pub running : s.claimed + s.rejected ≤ threads
  pub counted : s.store.allocated ≡ s.rejected + live s
  pub capped : live s ≤ max_entries kb

Step-Inv :
    {threads removals kb : ℕ} {s t : System}
    → threads ≤ 2 ^ 29
    → kb < 2 ^ 32
    → Step threads removals s t
    → Inv threads kb s
    → Inv threads kb t
unfolding free_entry remove_head insert_head append
Step-Inv {kb = kb} hn hk (claim h o e) v = ground (arith, max_entries-lt kb hk)
Step-Inv {kb = kb} hn hk (refuse h o e) v = ground (arith, max_entries-lt kb hk)
Step-Inv hn hk (no_memory c h e) v = ground arith
Step-Inv {kb = kb} hn hk (give_up r h e) v = ground (arith, max_entries-lt kb hk)
Step-Inv hn hk (count_drop d h e) v = ground arith
Step-Inv hn hk (obtain c h e) v = ground arith
Step-Inv {s = s} hn hk (appends r h q e) v =
    ground (arith, length-append s.store.list (stamp s.store r ∷ []))
Step-Inv {kb = kb} hn hk (deletes h q e) v = ground (arith, max_entries-lt kb hk)
Step-Inv hn hk (frees f h e) v = ground arith
Step-Inv hn hk (removes h e) v = ground arith
Step-Inv hn hk (puts_back r xs ys h e) v =
    ground (arith, length-append xs (r ∷ ys), length-append xs ys)
Step-Inv {kb = kb} hn hk (takes r xs ys h e) v =
    ground (arith, max_entries-lt kb hk, length-append xs (r ∷ ys), length-append xs ys)
Step-Inv hn hk (resets e) v = ground arith

-- The state before any callback runs: the empty list that Create leaves.
abbrev pub started : ℕ → System
started kb = record {
  store = record {
    list = [];
    allocated = 0;
    dropped = 0;
    sequence = 0;
    created = true;
    max_memory_kb = kb;
  };
  claimed = 0;
  rejected = 0;
  dropping = 0;
  held = 0;
  freeing = 0;
  removed = [];
  appended = [];
  taken = [];
}

Reach-Inv :
    {threads removals kb : ℕ} {s : System}
    → threads ≤ 2 ^ 29
    → kb < 2 ^ 32
    → Reach threads removals (started kb) s
    → Inv threads kb s
Reach-Inv hn hk here = ground arith
Reach-Inv hn hk (next r st) = Step-Inv hn hk st (Reach-Inv hn hk r)

-- However the calls of at most 2^29 threads and any number of removals interleave, under any cap that
-- a DWORD can set: the counter is the number of entries in use and of increments about to be taken
-- back, it stays a positive LONG, and the entries in use never exceed the cap.
pub cap_holds :
    {threads removals kb : ℕ} {s : System}
    → threads ≤ 2 ^ 29
    → kb < 2 ^ 32
    → Reach threads removals (started kb) s
    → (s.store.allocated ≡ s.rejected + live s)
      × (s.store.allocated < 2 ^ 31)
      × (live s ≤ max_entries kb)
cap_holds {kb = kb} hn hk r =
    let v = Reach-Inv hn hk r in omega (arith, v.counted, v.capped, v.running, max_entries-lt kb hk)
