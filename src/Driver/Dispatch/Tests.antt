-- ===== src/Driver/Dispatch/Tests.antt =====
-- The theorems on the callbacks at concrete operations.
use minifilter_monitor.Common.{◌+◌, ◌≤◌, ◌≡◌, refl, true, false, some, [], ◌∷◌, ◌++◌, arith, length}
use minifilter_monitor.Driver.Status.{success}
use minifilter_monitor.Driver.State.{Driver, passive_level}
use minifilter_monitor.Driver.Records.{clear, max_entries}
use minifilter_monitor.Driver.Port.{connect_notify}
use minifilter_monitor.Driver.Transaction.{absent, stores}
use minifilter_monitor.Driver.Dispatch.{Capture, Operation, pre_operation_callback}
use minifilter_monitor.Driver.Dispatch.Ownership.{
  System, Reach, here, next, connect, pre_operation, loaded, waiting, entries_owned,
}

-- A capture that writes the transaction's number and nothing else.
abbrev bare : Capture
bare = record {
  populate_pre_operation = λ d. d;
  populate_post_operation = λ n d. record d { transaction = n };
  populate_transaction_event = λ mask n d. record d { transaction = n };
}

abbrev read : Operation
read = record {
  is_shutdown = false;
  pool_ok = true;
  irql = passive_level;
  enlistment = record {
    has_transaction = true;
    lookup = absent;
    allocation = success;
    storing = stores;
  };
}

abbrev connected : Driver
connected = record ((loaded 9).driver) { client_port = some 7; connections = 7 ∷ [] }

-- A client connects and an operation starts.
abbrev working : System
working = record {
  driver = (pre_operation_callback bare read connected).1;
  pending = waiting (pre_operation_callback bare read connected).0 ++ [];
}

working-Reach : Reach bare (loaded 9) working
unfolding connect_notify clear
working-Reach = next (next here (connect 7 refl)) (pre_operation read refl)

entries_owned_example :
    (working.driver.store.allocated ≡ length working.pending + length working.driver.store.list)
    × (length working.pending + length working.driver.store.list
        ≤ max_entries working.driver.store.max_memory_kb)
entries_owned_example = entries_owned (ground arith) working-Reach
