-- ===== src/Driver/Entry/Cleanup.antt =====
-- MiniMonFlt/src/driver.cpp: the states that DriverEntry and the unload callback leave.
use minifilter_monitor.Common.{
  ℕ, ◌≡◌, refl, ◌∙◌, ap, Bool, true, false, [], Option, none, some, ◌⊎◌, inl, inr, arith, is_some,
  Bool-cases,
}
use minifilter_monitor.Driver.Status.{NtStatus, nt_success}
use minifilter_monitor.Driver.State.{Driver}
use minifilter_monitor.Driver.Records.{Store, clear}
use minifilter_monitor.Driver.Records.Bounds.{IsCounted, clear-IsCounted}
use minifilter_monitor.Driver.Records as Records
use minifilter_monitor.Driver.Port.{open_port, close_port}
use minifilter_monitor.Driver.Modules.{Modules, Startup, start}
use minifilter_monitor.Driver.Modules as Modules
use minifilter_monitor.Driver.Modules.Listing.{Distinct}
use minifilter_monitor.Driver.Modules.Starting.{IsConsistent, start-IsConsistent, delete_lem}
use minifilter_monitor.Driver.Entry.{
  unloaded, Machine, Environment, configure, finish, start_filtering, start_modules, driver_entry,
  filter_unload_callback,
}

-- Nothing is left: no port, no registration, no listed module, no record and no counted entry.
pub record IsEmpty (m : Machine) : Type 0 where
  pub no_port : m.driver.server_port ≡ none
  pub unregistered : (m.registered ≡ false) × (m.filtering ≡ false)
  pub no_modules : (m.modules.list ≡ []) × (m.modules.created ≡ false)
  pub no_records : (m.driver.store.list ≡ []) × (m.driver.store.allocated ≡ 0)
  pub modules_consistent : IsConsistent m.modules

-- Everything runs.
pub record IsRunning (m : Machine) : Type 0 where
  pub has_port : is_some m.driver.server_port ≡ true
  pub registered : (m.registered ≡ true) × (m.filtering ≡ true)
  pub tracking : m.modules.started ≡ true

delete-store :
    (s : Store)
    → IsCounted 0 s
    → s.created ≡ true
    → ((Records.delete s).list ≡ []) × ((Records.delete s).allocated ≡ 0)
unfolding Records.delete
delete-store s v c =
    let (counted, empty, drops, none_left, sequence) = clear-IsCounted 0 s v in
    ground (arith, c, empty, none_left)

-- The unload callback frees everything, once no operation is under way.
pub filter_unload_callback-IsEmpty :
    (m : Machine)
    → IsCounted 0 m.driver.store
    → m.driver.store.created ≡ true
    → IsConsistent m.modules
    → IsEmpty (filter_unload_callback m).1
unfolding filter_unload_callback close_port
filter_unload_callback-IsEmpty m v c k =
    let (consistent, unlisted, uncreated, none_own) = delete_lem m.modules 0 k in
    record {
      no_port = refl;
      unregistered = (refl, refl);
      no_modules = (unlisted, uncreated);
      no_records = delete-store m.driver.store v c;
      modules_consistent = consistent;
    }

-- No record is listed or counted yet.
Fresh : Machine → Type 0
Fresh m = (m.driver.store.list ≡ []) × (m.driver.store.allocated ≡ 0) × IsConsistent m.modules

-- What DriverEntry may leave.
Outcome : NtStatus × Machine → Type 0
Outcome (status, m) =
    ((nt_success status ≡ true) × IsRunning m) ⊎ ((nt_success status ≡ false) × IsEmpty m)

delete-fresh :
    (s : Store)
    → s.list ≡ []
    → s.allocated ≡ 0
    → ((Records.delete s).list ≡ []) × ((Records.delete s).allocated ≡ 0)
unfolding Records.delete clear
delete-fresh s l a = ground (arith, l, a)

fails-Outcome :
    (status : NtStatus) (m : Machine)
    → nt_success status ≡ false
    → Fresh m
    → Outcome (finish status m)
unfolding finish Fresh Outcome close_port
fails-Outcome status m bad (l, a, k) =
    let (consistent, unlisted, uncreated, none_own) = delete_lem m.modules 0 k in
    rw bad (
      inr (
        bad,
        record {
          no_port = refl;
          unregistered = (refl, refl);
          no_modules = (unlisted, uncreated);
          no_records = delete-fresh m.driver.store l a;
          modules_consistent = consistent;
        },
      ))

succeeds-Outcome :
    (status : NtStatus) (m : Machine)
    → nt_success status ≡ true
    → IsRunning m
    → Outcome (finish status m)
unfolding finish Outcome
succeeds-Outcome status m good r = rw good (inl (good, r))

start_filtering-Outcome :
    (v : Environment) (status : NtStatus) (m : Machine)
    → Fresh m
    → is_some m.driver.server_port ≡ true
    → m.registered ≡ true
    → ((nt_success status ≡ true) × (m.modules.started ≡ true)) ⊎ (nt_success status ≡ false)
    → Outcome (start_filtering v status m)
unfolding start_filtering Fresh
start_filtering-Outcome v status m f port reg (inr bad) = rw bad (fails-Outcome status m bad f)
start_filtering-Outcome v status m f port reg (inl (good, tracks)) =
    elim (Bool-cases (nt_success v.start_filtering)) [
      | inl runs ↦ rw good (
          succeeds-Outcome v.start_filtering (record m { filtering = nt_success v.start_filtering })
            runs (record { has_port = port; registered = (reg, runs); tracking = tracks }))
      | inr bad ↦ rw good (
          fails-Outcome v.start_filtering (record m { filtering = nt_success v.start_filtering })
            bad f)
    ]

start_modules-Outcome :
    (v : Environment) (status : NtStatus) (m : Machine)
    → Fresh m
    → m.registered ≡ true
    → ((nt_success status ≡ true) × (is_some m.driver.server_port ≡ true))
      ⊎ (nt_success status ≡ false)
    → Outcome (start_modules v status m)
unfolding start_modules Fresh
start_modules-Outcome v status m f reg (inr bad) = rw bad (fails-Outcome status m bad f)
start_modules-Outcome v status m (l, a, k) reg (inl (good, port)) =
    let (consistent, outcome) = start-IsConsistent v.startup m.modules k in
    rw good (
      start_filtering-Outcome v (start v.startup m.modules).0
        (record m { modules = (start v.startup m.modules).1 }) (l, a, consistent) port reg
        (elim outcome [
          | inl (started, tracks, created) ↦ inl (started, tracks)
          | inr (bad, idle, unlisted) ↦ inr bad
        ]))

open_port_outcome :
    (security creation : NtStatus) (port : ℕ) (d : Driver)
    → d.server_port ≡ none
    → let (status, d') = open_port security creation port d in
      (d'.store ≡ d.store)
      × (((nt_success status ≡ true) × (is_some d'.server_port ≡ true))
          ⊎ (nt_success status ≡ false))
unfolding open_port
open_port_outcome security creation port d h = ground (arith, h)

unloaded-IsConsistent : IsConsistent (Modules.create unloaded.modules)
unfolding Modules.create Distinct
unloaded-IsConsistent = record { distinct = tt; stopped = inr (refl, refl); prepared = inl refl }

configure_keeps :
    (path_ok : Bool) (kb : Option ℕ) (s : Store)
    → ((configure path_ok kb s).list ≡ s.list) × ((configure path_ok kb s).allocated ≡ s.allocated)
unfolding configure
configure_keeps path_ok none s = (refl, refl)
configure_keeps true (some kb) s = (refl, refl)
configure_keeps false (some kb) s = (refl, refl)

-- The machine before FltRegisterFilter.
set_up : Environment → Machine
set_up v = record unloaded {
  driver = record (unloaded.driver) {
    store = configure v.registry_path v.max_memory_kb (Records.create unloaded.driver.store);
  };
  modules = Modules.create unloaded.modules;
}

driver_entry-Outcome : (v : Environment) → Outcome (driver_entry v unloaded)
unfolding driver_entry Fresh set_up Records.create
driver_entry-Outcome v =
    let (l, a) =
      configure_keeps v.registry_path v.max_memory_kb (Records.create unloaded.driver.store) in
    let d = (set_up v).driver in
    let (store, opened) = open_port_outcome v.port_security v.port_creation v.port d refl in
    elim (Bool-cases (nt_success v.register_filter)) [
      | inr bad ↦
          rw bad (fails-Outcome v.register_filter (set_up v) bad (l, a, unloaded-IsConsistent))
      | inl good ↦ rw good (
          start_modules-Outcome v (open_port v.port_security v.port_creation v.port d).0
            (record (set_up v) {
              driver = (open_port v.port_security v.port_creation v.port d).1;
              registered = true;
            })
            (ap (λ st. st.list) store ∙ l, ap (λ st. st.allocated) store ∙ a, unloaded-IsConsistent)
            refl opened)
    ]

-- However the calls of the kernel answer, DriverEntry either succeeds with everything running, or
-- fails and leaves nothing: the port closed, the filter not registered, no module listed, no record.
pub driver_entry_outcome :
    (v : Environment)
    → let (status, m) = driver_entry v unloaded in
      ((nt_success status ≡ true) × IsRunning m) ⊎ ((nt_success status ≡ false) × IsEmpty m)
unfolding Outcome
driver_entry_outcome v = driver_entry-Outcome v
