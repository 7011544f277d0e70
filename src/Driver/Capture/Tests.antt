-- ===== src/Driver/Capture/Tests.antt =====
-- Captures of concrete buffers.
use minifilter_monitor.Common.{◌≡◌, refl, true, false, none, some, [], ◌∷◌, replicate}
use minifilter_monitor.Protocol.Supplements.{Payload}
use minifilter_monitor.Driver.State.{apc_level}
use minifilter_monitor.Driver.Memory.{
  CallbackData, Memory, Mdl, copy_readable_buffer, get_readable_buffer, map_mdl,
}
use minifilter_monitor.Driver.Capture.{populate_write, populate_read}
use minifilter_monitor.Driver.Capture.Payloads.{
  IsCaptured, populate_write-IsCaptured, populate_read-IsCaptured,
}

abbrev operation : CallbackData
operation = record {
  irql = apc_level;
  system_range_start = 1000;
  kernel_mode = false;
  same_process = true;
  probe = λ a n. true;
  has_new_system_buffer = false;
  new_system_buffer = none;
  information = 3;
}

abbrev addressed : Memory
addressed = record { byte = λ a. a; fault = λ a n. none }

abbrev mdl : Mdl
mdl = record { virtual_address = 64; system_address = some 2000; byte_count = 8 }

abbrev blank : Payload
blank = record { captured = false; truncated = false; captured_size = 0; bytes = replicate 2 0 }

-- Three bytes were read and two fit.
read_two :
    populate_read addressed operation (some mdl) (some 64) 8 blank
    ≡ record { captured = true; truncated = true; captured_size = 2; bytes = 2000 ∷ 2001 ∷ [] }
unfolding populate_read copy_readable_buffer get_readable_buffer map_mdl
read_two = refl

populate_write-IsCaptured_example :
    IsCaptured addressed
      (some 2000)
      8
      blank
      (populate_write addressed operation (some mdl) (some 64) 8 blank)
unfolding get_readable_buffer map_mdl
populate_write-IsCaptured_example =
    populate_write-IsCaptured addressed operation (some mdl) (some 64) 8 blank

populate_read-IsCaptured_example :
    IsCaptured addressed
      (some 2000)
      3
      blank
      (populate_read addressed operation (some mdl) (some 64) 8 blank)
unfolding get_readable_buffer map_mdl
populate_read-IsCaptured_example =
    populate_read-IsCaptured addressed operation (some mdl) (some 64) 8 blank
