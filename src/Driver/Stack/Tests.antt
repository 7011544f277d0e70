-- ===== src/Driver/Stack/Tests.antt =====
-- A stack trace whose two innermost addresses are the driver's.
use minifilter_monitor.Common.{ℕ, ◌≡◌, refl, true, List, [], ◌∷◌, replicate}
use minifilter_monitor.Protocol.{StackFrame}
use minifilter_monitor.Driver.Modules.{Modules, is_own_address}
use minifilter_monitor.Driver.Stack.{capture_stack_trace}

abbrev modules : Modules
modules = record {
  list = [];
  created = true;
  started = true;
  own_image_base = 100;
  own_image_size = 10;
}

abbrev frames : List StackFrame
frames = replicate 3 (record { module_name = replicate 32 0; offset = 0 })

abbrev addresses : List ℕ
addresses = 100 ∷ 109 ∷ 110 ∷ 105 ∷ []

two_frames : (capture_stack_trace modules addresses 3 frames).1 ≡ 2
unfolding capture_stack_trace is_own_address
two_frames = refl
