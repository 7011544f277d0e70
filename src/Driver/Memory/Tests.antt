-- ===== src/Driver/Memory/Tests.antt =====
-- Runs of MiniMonFlt/src/memory.cpp.
use minifilter_monitor.Common.{◌≡◌, refl, true, false, none, some, [], ◌∷◌}
use minifilter_monitor.Driver.State.{apc_level, dispatch_level}
use minifilter_monitor.Driver.Memory.{
  CallbackData, Mdl, get_readable_buffer, map_mdl, is_raw_buffer_readable, copy_readable_buffer,
}

abbrev user_read : CallbackData
user_read = record {
  irql = apc_level;
  system_range_start = 1000;
  kernel_mode = false;
  same_process = true;
  probe = λ a n. true;
  has_new_system_buffer = false;
  new_system_buffer = none;
  information = 5;
}

abbrev mdl : Mdl
mdl = record { virtual_address = 64; system_address = some 2000; byte_count = 8 }

mapped : get_readable_buffer user_read (some mdl) (some 64) 10 true ≡ (some 2000, 8)
unfolding get_readable_buffer map_mdl
mapped = refl

-- An MDL for another buffer is not used.
moved : get_readable_buffer user_read (some mdl) (some 72) 10 true ≡ (some 72, 10)
unfolding get_readable_buffer map_mdl is_raw_buffer_readable
moved = refl

raised :
    get_readable_buffer (record user_read { irql = dispatch_level }) none (some 72) 10 true
    ≡ (none, 10)
unfolding get_readable_buffer map_mdl is_raw_buffer_readable
raised = refl

cut :
    copy_readable_buffer (record { byte = λ a. a; fault = λ a n. some 1 }) (0 ∷ 0 ∷ []) 7 2
    ≡ (false, 7 ∷ 0 ∷ [])
unfolding copy_readable_buffer
cut = refl
