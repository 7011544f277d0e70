-- ===== src/Driver/Dispatch.antt =====
-- MiniMonFlt/src/dispatch.cpp and the notification of MiniMonFlt/src/transaction.cpp: the callbacks
-- through which every record goes. What they write into the record (trace/capture.cpp) is a
-- parameter, and so are the values that the Filter Manager passes.
pub mod Lifecycle
pub mod Ownership
mod Tests
use minifilter_monitor.Common.{ℕ, Bool, true, false, not, ◌&&◌, Option, none, some, if◌then◌else◌}
use minifilter_monitor.Protocol.{Record, RecordData}
use minifilter_monitor.Driver.State.{Driver, Irql, below_dispatch_level}
use minifilter_monitor.Driver.Records.{create_entry, delete_entry, append}
use minifilter_monitor.Driver.Port.{is_connected}
use minifilter_monitor.Driver.Transaction.{Enlistment, enlist}

-- The three operations of trace::capture, on the data of a record.
pub record Capture : Type 0 where
  pub populate_pre_operation : RecordData → RecordData
  pub populate_post_operation : ℕ → RecordData → RecordData
  pub populate_transaction_event : ℕ → ℕ → RecordData → RecordData

-- What the callbacks are told of the operation. `pool_ok` is whether the lookaside list has memory.
pub record Operation : Type 0 where
  pub is_shutdown : Bool
  pub pool_ok : Bool
  pub irql : Irql
  pub enlistment : Enlistment

-- FLT_PREOP_SUCCESS_NO_CALLBACK, and FLT_PREOP_SUCCESS_WITH_CALLBACK with the entry that becomes the
-- completion context.
pub data PreResult : Type 0 where
  no_callback : PreResult
  with_callback : Record → PreResult

-- The sequence number that PostOperationCallback passes on: 0 unless Enlist is called.
unfoldable pub enlist_if_possible : Operation → Driver → ℕ × Driver
unfolding enlist
enlist_if_possible o d =
    if o.enlistment.has_transaction && below_dispatch_level o.irql
    then enlist o.irql o.enlistment d
    else (0, d)

module _ (c : Capture) where
  open c use {populate_pre_operation, populate_post_operation, populate_transaction_event}

  -- The part of PostOperationCallback behind the test of FLTFL_POST_OPERATION_DRAINING.
  unfoldable pub complete : Operation → Record → Driver → Driver
  unfolding enlist_if_possible
  complete o e d =
      let (sequence, d') = enlist_if_possible o d in
      record d' {
        store =
            append (record e { record_data = populate_post_operation sequence e.record_data })
              d'.store;
      }

  unfoldable pub post_operation_callback : Bool → Operation → Record → Driver → Driver
  unfolding complete
  post_operation_callback draining o e d =
      if draining then record d { store = delete_entry d.store } else complete o e d

  -- The part of PreOperationCallback behind CreateEntry.
  unfoldable pub start : Operation → Option Record → Driver → PreResult × Driver
  unfolding post_operation_callback
  start o none d = (no_callback, d)
  start o (some fresh) d =
      let e = record fresh { record_data = populate_pre_operation fresh.record_data } in
      if o.is_shutdown
      then (no_callback, post_operation_callback false o e d)
      else (with_callback e, d)

  unfoldable pub pre_operation_callback : Operation → Driver → PreResult × Driver
  unfolding start
  pre_operation_callback o d =
      if not (is_connected d)
      then (no_callback, d)
      else let (e, store) = create_entry o.pool_ok d.store in start o e (record d { store = store })

  -- transaction::TransactionNotificationCallback, with the context's sequence number.
  unfoldable pub notify : ℕ → ℕ → Option Record → Driver → Driver
  notify mask sequence none d = d
  notify mask sequence (some e) d = record d {
    store =
        append (record e { record_data = populate_transaction_event mask sequence e.record_data })
          d.store;
  }

  unfoldable pub transaction_notification_callback : Bool → ℕ → ℕ → Driver → Driver
  unfolding notify
  transaction_notification_callback pool_ok mask sequence d =
      if not (is_connected d)
      then d
      else let (e, store) = create_entry pool_ok d.store in
        notify mask sequence e (record d { store = store })
