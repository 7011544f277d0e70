-- ===== src/Driver/Modules/Listing.antt =====
-- MiniMonFlt/src/trace/modules.cpp: the calls that add to the module list.
use minifilter_monitor.Common.{
  ℕ, ◌+◌, ◌≡◌, ◌≢◌, refl, List, [], ◌∷◌, inl, inr, Bool, true, false, arith, All, any, ◌==◌,
  Bool-cases, length, not, Option, none, some, ◌||◌, ◌∙◌, drop, if◌then◌else◌, ◌-◌, ◌%◌, ◌^◌,
}
use minifilter_monitor.Driver.Modules.{
  ModuleEntry, Modules, add_module, add_converted, add_loaded, base_name_of,
  load_image_notify_routine, find_own_module_loop, ModuleInfo, contains, base_name_start,
  aux_klib_module_path_len,
}

-- No two entries have one base.
unfoldable pub Distinct : List ModuleEntry → Type 0
Distinct [] = Unit
Distinct (e ∷ l) = All (λ o. o.base ≢ e.base) l × Distinct l

any-All :
    (base : ℕ) (l : List ModuleEntry)
    → any (λ o. o.base == base) l ≡ false
    → All (λ o. o.base ≢ base) l
any-All base [] h = tt
any-All base (e ∷ l) h = (ground arith, any-All base l (ground arith))

-- What the listing of modules leaves alone.
pub record Keeps (m m' : Modules) : Type 0 where
  pub distinct : Distinct m'.list
  pub same_created : m'.created ≡ m.created
  pub same_started : m'.started ≡ m.started

add_module-Keeps :
    (pool_ok : Bool) (base size : ℕ) (name : List ℕ) (m : Modules)
    → Distinct m.list
    → Keeps m (add_module pool_ok base size name m)
unfolding add_module Distinct
add_module-Keeps false base size name m d = record {
  distinct = d;
  same_created = refl;
  same_started = refl;
}
add_module-Keeps true base size name m d = elim (Bool-cases (any (λ o. o.base == base) m.list)) [
  | inl known ↦ rw known (record { distinct = d; same_created = refl; same_started = refl })
  | inr fresh ↦ rw fresh (record {
    distinct = (any-All base m.list fresh, d);
    same_created = refl;
    same_started = refl;
  })
]

add_converted-Keeps :
    (name : Option (List ℕ)) (i : ModuleInfo) (m : Modules)
    → Distinct m.list
    → Keeps m (add_converted name i m)
unfolding add_converted
add_converted-Keeps none i m d = record { distinct = d; same_created = refl; same_started = refl }
add_converted-Keeps (some name) i m d =
    add_module-Keeps i.pool_ok i.image_base i.image_size name m d

if-Keeps :
    (skip : Bool) (m m' : Modules) → Distinct m.list → Keeps m m' → Keeps m (if skip then m else m')
if-Keeps true m m' d k = record { distinct = d; same_created = refl; same_started = refl }
if-Keeps false m m' d k = k

pub add_loaded-Keeps :
    (l : List ModuleInfo) (m : Modules) → Distinct m.list → Keeps m (add_loaded l m)
unfolding add_loaded
add_loaded-Keeps [] m d = record { distinct = d; same_created = refl; same_started = refl }
add_loaded-Keeps (i ∷ l) m d =
    let name =
      base_name_of ((aux_klib_module_path_len + 2 ^ 16 - i.file_name_offset) % 2 ^ 16)
        (drop i.file_name_offset i.full_path_name) in
    let k =
      if-Keeps (length name == 0) m (add_converted (i.convert name) i m) d
        (add_converted-Keeps (i.convert name) i m d) in
    let r =
      add_loaded-Keeps l (if length name == 0 then m else add_converted (i.convert name) i m)
        k.distinct in
    record {
      distinct = r.distinct;
      same_created = r.same_created ∙ k.same_created;
      same_started = r.same_started ∙ k.same_started;
    }

pub find_own_module_loop-Keeps :
    (own : ℕ) (l : List ModuleEntry) (m : Modules)
    → Distinct m.list
    → Keeps m (find_own_module_loop own l m)
unfolding find_own_module_loop
find_own_module_loop-Keeps own [] m d = record {
  distinct = d;
  same_created = refl;
  same_started = refl;
}
find_own_module_loop-Keeps own (e ∷ l) m d = elim (Bool-cases (contains e.base e.size own)) [
  | inl here ↦ rw here (record { distinct = d; same_created = refl; same_started = refl })
  | inr other ↦ rw other (find_own_module_loop-Keeps own l m d)
]

-- A module that is loaded later is listed once, whatever its name and however often it is reported.
pub load_image_notify_routine-Distinct :
    (pool_ok : Bool) (full_name : Option (List ℕ)) (system_mode : Bool) (base size : ℕ)
    (m : Modules)
    → Distinct m.list
    → Distinct (load_image_notify_routine pool_ok full_name system_mode base size m).list
unfolding load_image_notify_routine
load_image_notify_routine-Distinct pool_ok none system_mode base size m d = d
load_image_notify_routine-Distinct pool_ok (some s) system_mode base size m d =
    let name = drop (base_name_start s (length s)) s in
    (if-Keeps (not system_mode || length s == 0 || length name == 0) m
      (add_module pool_ok base size name m) d
      (add_module-Keeps pool_ok base size name m d)).distinct
