-- ===== src/Driver/Dispatch/Ownership.antt =====
-- Every callback of MiniMonFlt/src/dispatch.cpp and every call of MiniMonFlt/src/port.cpp as one
-- step, in any order.
use minifilter_monitor.Common.{
  ℕ, suc, ◌+◌, ◌≤◌, ◌<◌, ◌^◌, ◌≡◌, Bool, List, [], ◌∷◌, ◌++◌, inl, inr, Option, none, some, arith,
  length, length-append, Bool-cases, is_some, true, false,
}
use native.Mathlib.Nat.{zero-add}
use minifilter_monitor.Protocol.{Record}
use minifilter_monitor.Driver.State.{Driver}
use minifilter_monitor.Driver.Records.{create_entry, max_entries}
use minifilter_monitor.Driver.Records.Bounds.{
  IsCounted, count, create_entry-IsCounted, delete_entry-IsCounted, append-IsCounted,
  clear-IsCounted,
}
use minifilter_monitor.Driver.Port.{
  Message, connect_notify, disconnect_notify, message_notify, is_connected,
}
use minifilter_monitor.Driver.Port.Messages.{message_notify-IsSafe}
use minifilter_monitor.Driver.Dispatch.{
  Capture, Operation, PreResult, no_callback, with_callback, complete, post_operation_callback,
  start, pre_operation_callback, notify, transaction_notification_callback,
}
use minifilter_monitor.Driver.Dispatch.Lifecycle.{complete_lem}

-- The driver, and the completion contexts that the Filter Manager keeps for operations under way.
pub record System : Type 0 where
  pub driver : Driver
  pub pending : List Record

-- The context that a pre-operation callback leaves with its operation.
abbrev pub waiting : PreResult → List Record
waiting no_callback = []
waiting (with_callback e) = e ∷ []

module _ (c : Capture) where
  -- The Filter Manager calls PostOperationCallback once for each context, in any order, also when it
  -- drains the operations of an instance that is torn down.
  pub data Step (s t : System) : Type 0 where
    pre_operation :
        (o : Operation)
        → t ≡ record {
          driver = (pre_operation_callback c o s.driver).1;
          pending = waiting (pre_operation_callback c o s.driver).0 ++ s.pending;
        }
        → Step s t
    post_operation :
        (draining : Bool) (o : Operation) (e : Record) (before after : List Record)
        → s.pending ≡ before ++ (e ∷ after)
        → t ≡ record {
          driver = post_operation_callback c draining o e s.driver;
          pending = before ++ after;
        }
        → Step s t
    transaction_notification :
        (pool_ok : Bool) (mask sequence : ℕ)
        → t
          ≡ record s { driver = transaction_notification_callback c pool_ok mask sequence s.driver }
        → Step s t
    connect : (port : ℕ) → t ≡ record s { driver = (connect_notify port s.driver).1 } → Step s t
    disconnect : t ≡ record s { driver = disconnect_notify s.driver } → Step s t
    message :
        (m : Message)
        → m.output_size < 2 ^ 32
        → t ≡ record s { driver = (message_notify m s.driver).driver }
        → Step s t

  pub data Reach (s : System) : System → Type 0 where
    here : Reach s s
    next : {t u : System} → Reach s t → Step t u → Reach s u

  Owned : System → Type 0
  Owned s = IsCounted (length s.pending) s.driver.store

  complete-IsCounted :
      (o : Operation) (e : Record) (held : ℕ) (d : Driver)
      → IsCounted (suc held) d.store
      → IsCounted held (complete c o e d).store
  complete-IsCounted o e held d v =
      let (r, q, n, p) = complete_lem c o e d in rw q (append-IsCounted r held d.store v)

  post_operation-IsCounted :
      (draining : Bool) (o : Operation) (e : Record) (held : ℕ) (d : Driver)
      → IsCounted (suc held) d.store
      → IsCounted held (post_operation_callback c draining o e d).store
  unfolding post_operation_callback
  post_operation-IsCounted true o e held d v = delete_entry-IsCounted held d.store v
  post_operation-IsCounted false o e held d v = complete-IsCounted o e held d v

  start-IsCounted :
      (o : Operation) (f : Option Record) (held : ℕ) (d : Driver)
      → IsCounted (held + count f) d.store
      → IsCounted (length (waiting (start c o f d).0) + held) (start c o f d).1.store
  unfolding start
  start-IsCounted o none held d v = ground arith
  start-IsCounted o (some f) held d v =
      let e = record f { record_data = c.populate_pre_operation f.record_data } in
      elim (Bool-cases o.is_shutdown) [
        | inl h ↦ rw (h, zero-add held) (post_operation-IsCounted false o e held d (ground arith))
        | inr h ↦ rw h (ground arith)
      ]

  pre_operation-IsCounted :
      (o : Operation) (held : ℕ) (d : Driver)
      → IsCounted held d.store
      → let (r, d') = pre_operation_callback c o d in IsCounted (length (waiting r) + held) d'.store
  unfolding pre_operation_callback is_connected
  pre_operation-IsCounted o held d v = elim (Bool-cases (is_some d.client_port)) [
    | inr h ↦ rw (h, zero-add held) v
    | inl h ↦ rw h (
        start-IsCounted o (create_entry o.pool_ok d.store).0 held
          (record d { store = (create_entry o.pool_ok d.store).1 })
          (create_entry-IsCounted o.pool_ok held d.store v))
  ]

  notify-IsCounted :
      (mask sequence : ℕ) (f : Option Record) (held : ℕ) (d : Driver)
      → IsCounted (held + count f) d.store
      → IsCounted held (notify c mask sequence f d).store
  unfolding notify
  notify-IsCounted mask sequence none held d v = ground arith
  notify-IsCounted mask sequence (some f) held d v =
      append-IsCounted
        (record f { record_data = c.populate_transaction_event mask sequence f.record_data }) held
        d.store (ground arith)

  transaction-IsCounted :
      (pool_ok : Bool) (mask sequence held : ℕ) (d : Driver)
      → IsCounted held d.store
      → IsCounted held (transaction_notification_callback c pool_ok mask sequence d).store
  unfolding transaction_notification_callback is_connected
  transaction-IsCounted pool_ok mask sequence held d v = elim (Bool-cases (is_some d.client_port)) [
    | inr h ↦ rw h v
    | inl h ↦ rw h (
        notify-IsCounted mask sequence (create_entry pool_ok d.store).0 held
          (record d { store = (create_entry pool_ok d.store).1 })
          (create_entry-IsCounted pool_ok held d.store v))
  ]

  connect-IsCounted :
      (port held : ℕ) (d : Driver)
      → IsCounted held d.store
      → IsCounted held (connect_notify port d).1.store
  unfolding connect_notify
  connect-IsCounted port held d v =
      let (counted, l, n, a, q) = clear-IsCounted held d.store v in ground arith

  message-IsCounted :
      (m : Message) (held : ℕ) (d : Driver)
      → m.output_size < 2 ^ 32
      → IsCounted held d.store
      → IsCounted held (message_notify m d).driver.store
  message-IsCounted m held d h v = (message_notify-IsSafe held m d h v).counted

  Step-Owned : {s t : System} → Step s t → Owned s → Owned t
  unfolding Owned disconnect_notify
  Step-Owned {s = s} (pre_operation o e) v =
      rw (e, length-append (waiting (pre_operation_callback c o s.driver).0) s.pending)
        (pre_operation-IsCounted o (length s.pending) s.driver v)
  Step-Owned {s = s} (post_operation draining o e before after p q) v =
      let n : length s.pending ≡ suc (length (before ++ after)) =
        rw (p, length-append before (e ∷ after), length-append before after) (omega arith) in
      rw q (
        post_operation-IsCounted draining o e (length (before ++ after)) s.driver
          (ground (arith, n, v)))
  Step-Owned {s = s} (transaction_notification pool_ok mask sequence q) v =
      rw q (transaction-IsCounted pool_ok mask sequence (length s.pending) s.driver v)
  Step-Owned {s = s} (connect port q) v =
      rw q (connect-IsCounted port (length s.pending) s.driver v)
  Step-Owned {s = s} (disconnect q) v =
      let (counted, l, n, a, k) = clear-IsCounted (length s.pending) s.driver.store v in
      rw q counted
  Step-Owned {s = s} (message m h q) v = rw q (message-IsCounted m (length s.pending) s.driver h v)

-- The driver as DriverEntry leaves it.
abbrev pub loaded : ℕ → System
loaded kb = record {
  driver = record {
    server_port = some 1;
    client_port = none;
    connections = [];
    store = record {
      list = [];
      allocated = 0;
      dropped = 0;
      sequence = 0;
      created = true;
      max_memory_kb = kb;
    };
    transaction_sequence = 0;
  };
  pending = [];
}

Reach-Owned : {c : Capture} {kb : ℕ} {s : System} → kb < 2 ^ 32 → Reach c (loaded kb) s → Owned c s
unfolding Owned
Reach-Owned h here = omega arith
Reach-Owned h (next r st) = Step-Owned _ st (Reach-Owned h r)

-- Whatever callbacks, commands, connects and disconnects come and in whatever order, the entries that
-- are allocated are exactly the completion contexts of the operations under way and the listed
-- records. None leaks and none is freed twice, and together they stay under the cap.
pub entries_owned :
    {c : Capture} {kb : ℕ} {s : System}
    → kb < 2 ^ 32
    → Reach c (loaded kb) s
    → (s.driver.store.allocated ≡ length s.pending + length s.driver.store.list)
      × (length s.pending + length s.driver.store.list ≤ max_entries s.driver.store.max_memory_kb)
unfolding Owned
entries_owned h r = let v = Reach-Owned h r in (v.counted, omega (arith, v.counted, v.capped))
