-- ===== src/Driver/Transaction/References.antt =====
-- Enlist of MiniMonFlt/src/transaction.cpp: its references to contexts and the number it returns.
use minifilter_monitor.Common.{ℕ, ◌≡◌, ◌≢◌, true, false, ◌⊎◌, none, arith}
use minifilter_monitor.Driver.Status.{nt_success}
use minifilter_monitor.Driver.State.{Irql}
use minifilter_monitor.Driver.Records.{increment}
use minifilter_monitor.Driver.Transaction.{
  Lookup, Stored, stored, absent, stores, already_defined, Enlistment, run_enlist, find_context,
  Locals,
}

find_context-balanced :
    (k : Lookup) (t : Enlistment) (l : Locals)
    → l.taken ≡ l.released
    → l.context ≡ none
    → l.old_context ≡ none
    → (find_context k t l).taken ≡ (find_context k t l).released
unfolding find_context
find_context-balanced (stored n) t l h c o = ground arith
find_context-balanced absent t l h c o = ground arith
find_context-balanced Lookup.failed t l h c o = ground arith

-- On every path, errors and a lost race with another thread included, Enlist releases exactly the
-- references to transaction contexts that it has taken.
pub run_enlist-balanced :
    (irql : Irql) (t : Enlistment) (counter : ℕ)
    → (run_enlist irql t counter).taken ≡ (run_enlist irql t counter).released
unfolding run_enlist
run_enlist-balanced irql t counter = ground (arith, find_context-balanced t.lookup t)

-- No context can be had: the lookup fails, or there is none and the new one cannot be allocated or
-- stored.
abbrev pub IsRefused : Enlistment → Type 0
IsRefused t =
    (t.lookup ≡ Lookup.failed)
    ⊎ ((t.lookup ≡ absent) × ((nt_success t.allocation ≡ false) ⊎ (t.storing ≡ Stored.failed)))

-- `n` is the number of the context that the Filter Manager has for the transaction after the call: of
-- an earlier call, of another thread that stored its own first, or of this call.
abbrev pub IsNumbered : Enlistment → ℕ → ℕ → Type 0
IsNumbered t counter n =
    (t.lookup ≡ stored n)
    ⊎ ((t.lookup ≡ absent)
        × (nt_success t.allocation ≡ true)
        × ((t.storing ≡ already_defined n) ⊎ ((t.storing ≡ stores) × (n ≡ increment counter))))

-- The counter moves on by one if the call makes a context of its own, and only then.
abbrev pub IsCounting : Enlistment → ℕ → ℕ → Type 0
IsCounting t before after =
    ((t.lookup ≡ absent) × (nt_success t.allocation ≡ true) × (after ≡ increment before))
    ⊎ (((t.lookup ≢ absent) ⊎ (nt_success t.allocation ≡ false)) × (after ≡ before))
