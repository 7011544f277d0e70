-- ===== src/Driver/Modules.antt =====
-- MiniMonFlt/src/trace/modules.cpp: the list of loaded kernel modules, by which the addresses of a
-- stack trace are resolved. A pointer is its address; what the kernel's routines return is an argument.
pub mod Resolving
pub mod Listing
pub mod Starting
mod Tests
use minifilter_monitor.Common.{
  ℕ, zero, suc, ◌+◌, ◌-◌, ◌%◌, ◌/◌, ◌^◌, Bool, true, false, not, List, [], ◌∷◌, ◌++◌, ◌&&◌, ◌||◌,
  Option, none, some, ltb, leb, ◌==◌, any, take, drop, length, overwrite, if◌then◌else◌,
}
use minifilter_monitor.Protocol.{StackFrame, stack_frame_name_wchar_count}
use minifilter_monitor.Driver.Status.{
  NtStatus, nt_success, success, invalid_device_state, insufficient_resources,
}

-- `ModuleEntry`; of the name's array, the cells up to its NUL.
pub record ModuleEntry : Type 0 where
  pub base : ℕ
  pub size : ℕ
  pub name : List ℕ

-- The file's variables. The list is empty until Create initialises its head.
pub record Modules : Type 0 where
  pub list : List ModuleEntry
  pub created : Bool
  pub started : Bool
  pub own_image_base : ℕ
  pub own_image_size : ℕ

abbrev pub module_name_wchar_count : ℕ
module_name_wchar_count = 64

abbrev pub bounded_count : ℕ → ℕ
bounded_count wchar_count =
    if leb module_name_wchar_count wchar_count then module_name_wchar_count - 1 else wchar_count

-- AddModule: a module whose base is listed already is not added again.
unfoldable pub add_module : Bool → ℕ → ℕ → List ℕ → Modules → Modules
add_module pool_ok base size name m =
    if not pool_ok
    then m
    else if any (λ existing. existing.base == base) m.list
    then m
    else record m {
      list =
          record {
            base = base;
            size = size;
            name = take (bounded_count (length name)) name ++ (0 ∷ []);
          }
          ∷ m.list;
    }

abbrev pub cell : ℕ → List ℕ → ℕ
cell i [] = 0
cell zero (c ∷ s) = c
cell (suc i) (c ∷ s) = cell i s

-- The loop of LoadImageNotifyRoutine: where the part after the last backslash begins.
unfoldable pub base_name_start : List ℕ → ℕ → ℕ
base_name_start s zero = 0
base_name_start s (suc i) = if cell i s == b'\\' then suc i else base_name_start s i

-- LoadImageNotifyRoutine; `none` is a null pFullImageName or a null buffer.
unfoldable pub load_image_notify_routine : Bool → Option (List ℕ) → Bool → ℕ → ℕ → Modules → Modules
unfolding add_module base_name_start
load_image_notify_routine pool_ok none system_mode base size m = m
load_image_notify_routine pool_ok (some full_name) system_mode base size m =
    let base_name = drop (base_name_start full_name (length full_name)) full_name in
    if not system_mode || length full_name == 0 || length base_name == 0
    then m
    else add_module pool_ok base size base_name m

-- The test `address >= base && address - base < size`.
abbrev pub contains : ℕ → ℕ → ℕ → Bool
contains base size address = leb base address && ltb (address - base) size

-- The loop of FindOwnModule, over the entries still to look at.
unfoldable pub find_own_module_loop : ℕ → List ModuleEntry → Modules → Modules
find_own_module_loop own_address [] m = m
find_own_module_loop own_address (e ∷ rest) m =
    let others = find_own_module_loop own_address rest m in
    if contains e.base e.size own_address
    then record m { own_image_base = e.base; own_image_size = e.size }
    else others

unfoldable pub find_own_module : ℕ → Modules → Modules
unfolding find_own_module_loop
find_own_module own_address m = find_own_module_loop own_address m.list m

unfoldable pub stop : Modules → Modules
stop m =
    if not m.started
    then m
    else record m { list = []; own_image_base = 0; own_image_size = 0; started = false }

unfoldable pub create : Modules → Modules
create m = if m.created then m else record m { list = []; created = true }

-- An AUX_MODULE_EXTENDED_INFO, with what RtlAnsiStringToUnicodeString makes of its base name and
-- whether AddModule gets memory.
pub record ModuleInfo : Type 0 where
  pub image_base : ℕ
  pub image_size : ℕ
  pub full_path_name : List ℕ
  pub file_name_offset : ℕ
  pub convert : List ℕ → Option (List ℕ)
  pub pool_ok : Bool

-- The loop over the characters of a module's base name: as many as `remaining` before a NUL.
unfoldable pub base_name_of : ℕ → List ℕ → List ℕ
base_name_of zero s = []
base_name_of (suc remaining) [] = []
base_name_of (suc remaining) (c ∷ s) = if c == 0 then [] else c ∷ base_name_of remaining s

abbrev pub aux_klib_module_path_len : ℕ
aux_klib_module_path_len = 256

unfoldable pub add_converted : Option (List ℕ) → ModuleInfo → Modules → Modules
unfolding add_module
add_converted none i m = m
add_converted (some name) i m = add_module i.pool_ok i.image_base i.image_size name m

-- The loop of Start over the modules that are loaded already.
unfoldable pub add_loaded : List ModuleInfo → Modules → Modules
unfolding add_converted base_name_of
add_loaded [] m = m
add_loaded (i ∷ rest) m =
    let remaining = (aux_klib_module_path_len + 2 ^ 16 - i.file_name_offset) % 2 ^ 16 in
    let base_name = base_name_of remaining (drop i.file_name_offset i.full_path_name) in
    add_loaded rest (if length base_name == 0 then m else add_converted (i.convert base_name) i m)

-- What the routines that Start calls return, in their order. `size` is what the first query asks for.
pub record Startup : Type 0 where
  pub notify_routine : NtStatus
  pub initialize : NtStatus
  pub query_size : NtStatus
  pub size : ℕ
  pub pool_ok : Bool
  pub query_modules : NtStatus
  pub modules : List ModuleInfo
  pub own_address : ℕ

-- Start from the first query on, behind PsSetLoadImageNotifyRoutine.
unfoldable pub load_modules : Startup → Modules → NtStatus × Modules
unfolding add_loaded find_own_module
load_modules u m =
    if not (nt_success u.initialize)
    then (u.initialize, m)
    else if not (nt_success u.query_size) || u.size == 0
    then (u.query_size, m)
    else if not u.pool_ok
    then (insufficient_resources, m)
    else if not (nt_success u.query_modules)
    then (u.query_modules, m)
    else (success, find_own_module u.own_address (add_loaded u.modules m))

unfoldable pub start_body : Startup → Modules → NtStatus × Modules
unfolding load_modules
start_body u m =
    if not m.created
    then (invalid_device_state, m)
    else if m.started
    then (success, m)
    else if not (nt_success u.notify_routine)
    then (u.notify_routine, m)
    else load_modules u (record m { started = true })

-- Start, with its label `done`.
unfoldable pub start : Startup → Modules → NtStatus × Modules
unfolding start_body stop
start u m = let (status, m') = start_body u m in (status, if nt_success status then m' else stop m')

unfoldable pub delete : Modules → Modules
unfolding stop
delete m = record (stop m) { created = false }

unfoldable pub is_own_address : ℕ → Modules → Bool
is_own_address address m = contains m.own_image_base m.own_image_size address

-- The loop that copies a module's name, up to its NUL, into at most `room` cells.
unfoldable pub copy_name : ℕ → List ℕ → List ℕ
copy_name zero s = []
copy_name (suc room) [] = []
copy_name (suc room) (c ∷ s) = let rest = copy_name room s in if c == 0 then [] else c ∷ rest

-- ResolveAddress, over the entries still to look at.
unfoldable pub resolve_address : ℕ → List ModuleEntry → StackFrame → StackFrame
unfolding copy_name
resolve_address address [] f = record {
  module_name = overwrite f.module_name (0 ∷ []);
  offset = address;
}
resolve_address address (e ∷ rest) f =
    let others = resolve_address address rest f in
    if ltb address e.base
    then others
    else if leb e.size (address - e.base)
    then others
    else record {
      module_name =
          overwrite f.module_name (copy_name (stack_frame_name_wchar_count - 1) e.name ++ (0 ∷ []));
      offset = address - e.base;
    }

-- Resolve: one frame for each address.
unfoldable pub resolve : List ModuleEntry → List ℕ → List StackFrame → List StackFrame
unfolding resolve_address
resolve modules [] frames = frames
resolve modules (address ∷ addresses) [] = []
resolve modules (address ∷ addresses) (f ∷ frames) =
    (if address == 0
      then record { module_name = overwrite f.module_name (0 ∷ []); offset = 0 }
      else resolve_address address modules f)
    ∷ resolve modules addresses frames
