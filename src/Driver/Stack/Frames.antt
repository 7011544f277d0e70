-- ===== src/Driver/Stack/Frames.antt =====
-- CaptureStackTrace of MiniMonFlt/src/trace/capture.cpp.
use minifilter_monitor.Driver.Modules.{Modules}
