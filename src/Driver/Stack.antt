-- ===== src/Driver/Stack.antt =====
-- MiniMonFlt/src/trace/capture.cpp: the stack trace of a record. RtlCaptureStackBackTrace gives the
-- return addresses, the innermost first.
pub mod Frames
mod Tests
use minifilter_monitor.Common.{ℕ, List, [], ◌∷◌, ltb, ◌==◌, length, take, if◌then◌else◌}
use minifilter_monitor.Protocol.{StackFrame}
use minifilter_monitor.Driver.Modules.{Modules, is_own_address, resolve}

-- The loop of CaptureStackTrace: the addresses behind the driver's own ones.
unfoldable pub skip_own : Modules → List ℕ → List ℕ
skip_own m [] = []
skip_own m (address ∷ rest) =
    let others = skip_own m rest in if is_own_address address m then others else address ∷ rest

-- CaptureStackTrace: the frames, and *pCount.
unfoldable pub capture_stack_trace : Modules → List ℕ → ℕ → List StackFrame → List StackFrame × ℕ
unfolding skip_own
capture_stack_trace m addresses capacity frames =
    let callers = skip_own m addresses in
    let count = if ltb (length callers) capacity then length callers else capacity in
    if length callers == 0 then (frames, 0) else (resolve m.list (take count callers) frames, count)
