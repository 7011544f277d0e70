-- ===== src/Driver/Entry.antt =====
-- MiniMonFlt/src/driver.cpp and config.cpp: DriverEntry, the unload callback and what they set up.
-- The arguments are what the routines of the kernel and of the Filter Manager return.
pub mod Cleanup
mod Tests
use minifilter_monitor.Common.{
  ℕ, List, [], Bool, true, false, not, ◌&&◌, Option, none, some, if◌then◌else◌,
}
use minifilter_monitor.Driver.Status.{
  NtStatus, nt_success, success, buffer_overflow, context_already_defined,
}
use minifilter_monitor.Driver.State.{Driver}
use minifilter_monitor.Driver.Records.{Store}
use minifilter_monitor.Driver.Records as Records
use minifilter_monitor.Driver.Port.{open_port, close_port}
use minifilter_monitor.Driver.Modules.{Modules, Startup, start}
use minifilter_monitor.Driver.Modules as Modules

-- The whole driver: `registered` while the Filter Manager knows the filter (pFilter), `filtering`
-- while it sends operations to it.
pub record Machine : Type 0 where
  pub driver : Driver
  pub modules : Modules
  pub registered : Bool
  pub filtering : Bool

-- `registry_path` is whether config::Create can format the path, `max_memory_kb` the DWORD that
-- RtlQueryRegistryValues stores, if the value is there and has the type.
pub record Environment : Type 0 where
  pub registry_path : Bool
  pub max_memory_kb : Option ℕ
  pub register_filter : NtStatus
  pub port_security : NtStatus
  pub port_creation : NtStatus
  pub port : ℕ
  pub startup : Startup
  pub start_filtering : NtStatus

-- config::Create.
unfoldable pub configure : Bool → Option ℕ → Store → Store
configure path_ok none s = s
configure path_ok (some kb) s = if path_ok then record s { max_memory_kb = kb } else s

-- The label `done` of DriverEntry.
unfoldable pub finish : NtStatus → Machine → NtStatus × Machine
finish status m =
    if not (nt_success status)
    then (
      status,
      record {
        driver = record (close_port m.driver) {
          store = Records.delete (close_port m.driver).store;
        };
        modules = Modules.delete m.modules;
        registered = false;
        filtering = false;
      },
    )
    else (status, m)

-- DriverEntry behind trace::modules::Start.
unfoldable pub start_filtering : Environment → NtStatus → Machine → NtStatus × Machine
start_filtering v started m =
    if not (nt_success started)
    then finish started m
    else finish v.start_filtering (record m { filtering = nt_success v.start_filtering })

-- DriverEntry behind port::Open.
unfoldable pub start_modules : Environment → NtStatus → Machine → NtStatus × Machine
start_modules v opened m =
    if not (nt_success opened)
    then finish opened m
    else let (status, modules) = start v.startup m.modules in
      start_filtering v status (record m { modules = modules })

unfoldable pub driver_entry : Environment → Machine → NtStatus × Machine
driver_entry v m =
    let set_up : Machine = record m {
      driver = record (m.driver) {
        store = configure v.registry_path v.max_memory_kb (Records.create m.driver.store);
      };
      modules = Modules.create m.modules;
    } in
    if not (nt_success v.register_filter)
    then finish v.register_filter set_up
    else let (status, driver) = open_port v.port_security v.port_creation v.port set_up.driver in
      start_modules v status (record set_up { driver = driver; registered = true })

-- FilterUnloadCallback.
unfoldable pub filter_unload_callback : Machine → NtStatus × Machine
filter_unload_callback m = (
  success,
  record {
    driver = record (close_port m.driver) { store = Records.delete (close_port m.driver).store };
    modules = Modules.delete m.modules;
    registered = false;
    filtering = false;
  },
)

-- What the routines that InstanceSetupCallback calls return, and what FormatInstanceAltitude does.
pub record InstanceSetup : Type 0 where
  pub allocation : NtStatus
  pub altitude : NtStatus
  pub storing : NtStatus

-- Another thread's context for the instance is as good.
abbrev pub or_kept : NtStatus → NtStatus
or_kept context_already_defined = success
or_kept status = status

-- The status of InstanceSetupCallback, whether the context's `altitudeTruncated` is set, and how many
-- references to the context it has taken and released.
unfoldable pub instance_setup_callback : InstanceSetup → NtStatus × Bool × ℕ × ℕ
instance_setup_callback i =
    if not (nt_success i.allocation)
    then (i.allocation, false, 0, 0)
    else (or_kept i.storing, elim (i.altitude) [ buffer_overflow ↦ true | _ ↦ false ], 1, 1)

-- The machine before DriverEntry: every variable has its initialiser.
abbrev pub unloaded : Machine
unloaded = record {
  driver = record {
    server_port = none;
    client_port = none;
    connections = [];
    store = record {
      list = [];
      allocated = 0;
      dropped = 0;
      sequence = 0;
      created = false;
      max_memory_kb = Records.default_max_memory_kb;
    };
    transaction_sequence = 0;
  };
  modules = record {
    list = [];
    created = false;
    started = false;
    own_image_base = 0;
    own_image_size = 0;
  };
  registered = false;
  filtering = false;
}
