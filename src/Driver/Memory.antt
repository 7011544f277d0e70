-- ===== src/Driver/Memory.antt =====
-- MiniMonFlt/src/memory.cpp: which bytes of an operation's buffer the driver may read. A pointer is
-- an address, `none` if it is null.
mod Tests
use minifilter_monitor.Common.{
  ℕ, zero, suc, ◌+◌, ◌≡◌, Bool, true, false, not, List, [], ◌∷◌, ◌&&◌, ◌||◌, Option, none, some,
  ltb, leb, ◌==◌, is_some, overwrite, min, if◌then◌else◌,
}
use minifilter_monitor.Driver.State.{Irql, below_dispatch_level}

-- The MDL's virtual address, the system address it maps to if it can be mapped, and its byte count.
pub record Mdl : Type 0 where
  pub virtual_address : ℕ
  pub system_address : Option ℕ
  pub byte_count : ℕ

-- What the code reads of FLT_CALLBACK_DATA and of the thread it runs on. `same_process`: the
-- operation has a thread and its process is the current one; `probe`: ProbeForRead raises nothing.
pub record CallbackData : Type 0 where
  pub irql : Irql
  pub system_range_start : ℕ
  pub kernel_mode : Bool
  pub same_process : Bool
  pub probe : ℕ → ℕ → Bool
  pub has_new_system_buffer : Bool
  pub new_system_buffer : Option ℕ
  pub information : ℕ

-- The expected address is given and is not the MDL's.
abbrev pub is_elsewhere : Option ℕ → Mdl → Bool
is_elsewhere none mdl = false
is_elsewhere (some a) mdl = not (mdl.virtual_address == a)

unfoldable pub map_mdl : Option Mdl → Option ℕ → ℕ → Option ℕ × ℕ
map_mdl none expected size = (none, size)
map_mdl (some mdl) expected size =
    if is_elsewhere expected mdl || not (is_some mdl.system_address)
    then (none, size)
    else (mdl.system_address, if ltb mdl.byte_count size then mdl.byte_count else size)

unfoldable pub is_raw_buffer_readable : CallbackData → Option ℕ → ℕ → Bool → Bool
is_raw_buffer_readable d none size probed = false
is_raw_buffer_readable d (some raw) size probed =
    if not (below_dispatch_level d.irql)
    then false
    else if leb d.system_range_start raw
    then probed || d.kernel_mode
    else if not d.same_process
    then false
    else d.probe raw size

-- The part of GetReadableBuffer behind MapMdl.
abbrev pub or_raw : Option ℕ × ℕ → CallbackData → Option ℕ → Bool → Option ℕ × ℕ
or_raw (some mapped, size) d raw probed = (some mapped, size)
or_raw (none, size) d raw probed =
    if is_some raw && is_raw_buffer_readable d raw size probed then (raw, size) else (none, size)

-- The buffer to read from, and *pBufferSize.
unfoldable pub get_readable_buffer : CallbackData → Option Mdl → Option ℕ → ℕ → Bool → Option ℕ × ℕ
get_readable_buffer d mdl raw size probed =
    if d.has_new_system_buffer
    then if not (below_dispatch_level d.irql)
      then (none, size)
      else (d.new_system_buffer, if ltb d.information size then d.information else size)
    else or_raw (map_mdl mdl raw size) d raw probed

-- The kernel's memory, and where a copy from an address raises an exception: after so many bytes.
pub record Memory : Type 0 where
  pub byte : ℕ → ℕ
  pub fault : ℕ → ℕ → Option ℕ

unfoldable pub read_bytes : (ℕ → ℕ) → ℕ → ℕ → List ℕ
read_bytes byte a zero = []
read_bytes byte a (suc n) = byte a ∷ read_bytes byte (a + 1) n

-- RtlCopyMemory under the handler: it raises nothing, or an exception after `copied` bytes.
unfoldable pub copy_until : Option ℕ → Memory → List ℕ → ℕ → ℕ → Bool × List ℕ
copy_until none m array a size = (true, overwrite array (read_bytes m.byte a size))
copy_until (some copied) m array a size =
    (false, overwrite array (read_bytes m.byte a (min copied size)))

-- Whether the copy succeeded, and the array that it wrote to.
unfoldable pub copy_readable_buffer : Memory → List ℕ → ℕ → ℕ → Bool × List ℕ
unfolding copy_until read_bytes
copy_readable_buffer m array a size = copy_until (m.fault a size) m array a size
