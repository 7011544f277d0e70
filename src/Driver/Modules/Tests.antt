-- ===== src/Driver/Modules/Tests.antt =====
-- Runs of the module list, and its theorems at a list of two modules.
use minifilter_monitor.Common.{
  ℕ, ◌+◌, ◌<◌, ◌≡◌, ◌≢◌, refl, true, false, some, List, [], ◌∷◌, ◌++◌, ◌⊎◌, inl, inr, arith, take,
  codes, All, replicate,
}
use minifilter_monitor.Protocol.{StackFrame}
use minifilter_monitor.Client.Text.{extract}
use minifilter_monitor.Driver.Status.{success, unsuccessful, nt_success}
use minifilter_monitor.Driver.Modules.{
  Modules, ModuleEntry, Startup, load_image_notify_routine, start, delete, resolve_address,
  is_own_address, contains,
}
use minifilter_monitor.Driver.Modules.Listing.{Distinct, load_image_notify_routine-Distinct}
use minifilter_monitor.Driver.Modules.Starting.{IsConsistent, start-IsConsistent, delete_lem}
use minifilter_monitor.Driver.Modules.Resolving.{resolve_address_lem}

abbrev ntfs : ModuleEntry
ntfs = record { base = 4096; size = 512; name = codes "Ntfs.sys" ++ (0 ∷ []) }

abbrev two_modules : Modules
two_modules = record {
  list = ntfs ∷ record { base = 8192; size = 64; name = codes "x.sys" ++ (0 ∷ []) } ∷ [];
  created = true;
  started = true;
  own_image_base = 8192;
  own_image_size = 64;
}

ne : ◌≢◌ {A = ℕ} 8192 4096
ne = λ e. absurd (omega (arith, e))

two_modules-Distinct : Distinct two_modules.list
unfolding Distinct
two_modules-Distinct = ((ne, tt), (tt, tt))

two_modules-IsConsistent : IsConsistent two_modules
two_modules-IsConsistent = record {
  distinct = two_modules-Distinct;
  stopped = inl refl;
  prepared = inl refl;
}

-- The part behind the last backslash is the name that is listed.
notified :
    (load_image_notify_routine true (some (codes "c:\\a\\b.sys")) true 9 1 two_modules).list
    ≡ record { base = 9; size = 1; name = codes "b.sys" ++ (0 ∷ []) } ∷ two_modules.list
unfolding load_image_notify_routine
notified = refl

load_image_notify_routine-Distinct_example :
    Distinct
      (load_image_notify_routine true (some (codes "c:\\b.sys")) true 4096 1 two_modules).list
load_image_notify_routine-Distinct_example =
    load_image_notify_routine-Distinct true (some (codes "c:\\b.sys")) true 4096 1 two_modules
      two_modules-Distinct

abbrev frame : StackFrame
frame = record { module_name = replicate 32 0; offset = 0 }

resolve_address_lem_example :
    let r = resolve_address 4100 two_modules.list frame in
    ((before after : List ModuleEntry) × (m : ModuleEntry) × (two_modules.list
        ≡ before ++ (m ∷ after))
      × All (λ e. contains e.base e.size 4100 ≡ false) before
      × (m.base + r.offset ≡ 4100)
      × (r.offset < m.size)
      × (extract r.module_name ≡ take 31 (extract m.name)))
    ⊎ (All (λ e. contains e.base e.size 4100 ≡ false) two_modules.list
        × (extract r.module_name ≡ [])
        × (r.offset ≡ 4100))
resolve_address_lem_example = resolve_address_lem 4100 two_modules.list frame refl

abbrev created : Modules
created = record {
  list = [];
  created = true;
  started = false;
  own_image_base = 0;
  own_image_size = 0;
}

created-IsConsistent : IsConsistent created
unfolding Distinct
created-IsConsistent = record { distinct = tt; stopped = inr (refl, refl); prepared = inl refl }

-- The memory for the module information is missing.
abbrev short : Startup
short = record {
  notify_routine = success;
  initialize = success;
  query_size = success;
  size = 272;
  pool_ok = false;
  query_modules = unsuccessful;
  modules = [];
  own_address = 8200;
}

start-IsConsistent_example :
    let (status, m') = start short created in
    IsConsistent m'
    × (((nt_success status ≡ true) × (m'.started ≡ true) × (m'.created ≡ true))
        ⊎ ((nt_success status ≡ false) × (m'.started ≡ false) × (m'.list ≡ [])))
start-IsConsistent_example = start-IsConsistent short created created-IsConsistent

delete_lem_example :
    IsConsistent (delete two_modules)
    × ((delete two_modules).list ≡ [])
    × ((delete two_modules).created ≡ false)
    × (is_own_address 8200 (delete two_modules) ≡ false)
delete_lem_example = delete_lem two_modules 8200 two_modules-IsConsistent
