-- ===== src/Driver/Entry/Tests.antt =====
-- A start that fails at its last step, and an unload.
use minifilter_monitor.Common.{◌≡◌, refl, true, false, some, [], ◌⊎◌, inl, arith}
use minifilter_monitor.Driver.Status.{success, unsuccessful, nt_success}
use minifilter_monitor.Driver.Records.Bounds.{IsCounted}
use minifilter_monitor.Driver.Modules.{Startup}
use minifilter_monitor.Driver.Modules.Listing.{Distinct}
use minifilter_monitor.Driver.Modules.Starting.{IsConsistent}
use minifilter_monitor.Driver.Entry.{
  Machine, Environment, driver_entry, filter_unload_callback, unloaded,
}
use minifilter_monitor.Driver.Entry.Cleanup.{
  IsEmpty, IsRunning, driver_entry_outcome, filter_unload_callback-IsEmpty,
}

abbrev no_modules : Startup
no_modules = record {
  notify_routine = success;
  initialize = success;
  query_size = success;
  size = 0;
  pool_ok = true;
  query_modules = success;
  modules = [];
  own_address = 0;
}

abbrev refusing : Environment
refusing = record {
  registry_path = true;
  max_memory_kb = some 100;
  register_filter = success;
  port_security = success;
  port_creation = success;
  port = 5;
  startup = no_modules;
  start_filtering = unsuccessful;
}

driver_entry_outcome_example :
    let (status, m) = driver_entry refusing unloaded in
    ((nt_success status ≡ true) × IsRunning m) ⊎ ((nt_success status ≡ false) × IsEmpty m)
driver_entry_outcome_example = driver_entry_outcome refusing

abbrev running : Machine
running = record unloaded {
  driver = record (unloaded.driver) {
    server_port = some 5;
    store = record (unloaded.driver.store) { created = true };
  };
  modules = record (unloaded.modules) { created = true; started = true };
  registered = true;
  filtering = true;
}

running-IsConsistent : IsConsistent running.modules
unfolding Distinct
running-IsConsistent = record { distinct = tt; stopped = inl refl; prepared = inl refl }

running-IsCounted : IsCounted 0 running.driver.store
running-IsCounted = omega arith

filter_unload_callback-IsEmpty_example : IsEmpty (filter_unload_callback running).1
filter_unload_callback-IsEmpty_example =
    filter_unload_callback-IsEmpty running running-IsCounted refl running-IsConsistent
