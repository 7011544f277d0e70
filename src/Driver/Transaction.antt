-- ===== src/Driver/Transaction.antt =====
-- MiniMonFlt/src/transaction.cpp: a sequence number for each transaction, kept in a context that the
-- Filter Manager stores. What its routines return is an argument.
pub mod References
mod Tests
use minifilter_monitor.Common.{
  ℕ, ◌+◌, Bool, true, false, not, ◌||◌, Option, none, some, if◌then◌else◌,
}
use minifilter_monitor.Driver.Status.{NtStatus, nt_success}
use minifilter_monitor.Driver.State.{Driver, Irql, at_passive_level}
use minifilter_monitor.Driver.Records.{increment}

-- FltGetTransactionContext: the stored context's sequence number, STATUS_NOT_FOUND, or a failure.
pub data Lookup : Type 0 where
  stored : ℕ → Lookup
  absent failed : Lookup

-- FltSetTransactionContext with FLT_SET_CONTEXT_KEEP_IF_EXISTS: the new context is stored; another
-- one is (STATUS_FLT_CONTEXT_ALREADY_DEFINED), which comes back with a reference; or a failure.
pub data Stored : Type 0 where
  stores failed : Stored
  already_defined : ℕ → Stored

-- `has_transaction`: pFltObjects->Transaction is not null.
pub record Enlistment : Type 0 where
  pub has_transaction : Bool
  pub lookup : Lookup
  pub allocation : NtStatus
  pub storing : Stored

-- The locals of Enlist: pContext and pOldContext (a context is its sequence number), the result,
-- TransactionSequence, and how many references to contexts the call has taken and released.
pub record Locals : Type 0 where
  pub context : Option ℕ
  pub old_context : Option ℕ
  pub sequence : ℕ
  pub counter : ℕ
  pub taken : ℕ
  pub released : ℕ

abbrev pub references : Option ℕ → ℕ
references none = 0
references (some context) = 1

-- The label `done`.
unfoldable pub finish : Locals → Locals
finish l = record l { released = l.released + references l.old_context + references l.context }

-- sequence = pContext->sequence, and the end; FltEnlistInTransaction changes nothing here.
unfoldable pub take_sequence : ℕ → Locals → Locals
unfolding finish
take_sequence context l = finish (record l { context = some context; sequence = context })

-- FltSetTransactionContext on the new context, and the branches over its status.
unfoldable pub store_context : Stored → ℕ → Locals → Locals
unfolding take_sequence
store_context stores context l = take_sequence context l
store_context Stored.failed context l =
    finish (record l { context = none; released = l.released + 1 })
store_context (already_defined old) context l =
    take_sequence old
      (record l { taken = l.taken + 1; released = l.released + 1; old_context = none })

-- FltGetTransactionContext, and the branches over its status.
unfoldable pub find_context : Lookup → Enlistment → Locals → Locals
unfolding store_context
find_context (stored sequence) t l = take_sequence sequence (record l { taken = l.taken + 1 })
find_context Lookup.failed t l = finish l
find_context absent t l =
    if nt_success t.allocation
    then (let next = increment l.counter in
        store_context t.storing next
          (record l { context = some next; counter = next; taken = l.taken + 1 }))
    else finish l

unfoldable pub run_enlist : Irql → Enlistment → ℕ → Locals
unfolding find_context
run_enlist irql t counter =
    let l : Locals = record {
      context = none;
      old_context = none;
      sequence = 0;
      counter = counter;
      taken = 0;
      released = 0;
    } in
    if not t.has_transaction || not (at_passive_level irql) then l else find_context t.lookup t l

-- transaction::Enlist on the driver's state.
unfoldable pub enlist : Irql → Enlistment → Driver → ℕ × Driver
enlist irql t d =
    let l = run_enlist irql t d.transaction_sequence in
    (l.sequence, record d { transaction_sequence = l.counter })
