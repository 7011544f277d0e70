-- ===== src/Driver/Status.antt =====
-- The NTSTATUS values that the driver's code names, and NT_SUCCESS of each. `other` is a status that
-- a kernel call or GetExceptionCode returns and that the code does not name; its flag says whether
-- NT_SUCCESS accepts it.
use minifilter_monitor.Common.{ℕ, Bool, true, false}

pub data NtStatus : Type 0 where
  success invalid_parameter datatype_misalignment buffer_too_small no_more_entries : NtStatus
  device_busy buffer_overflow unsuccessful not_found insufficient_resources : NtStatus
  invalid_device_state context_already_defined already_enlisted : NtStatus
  other : Bool → ℕ → NtStatus

abbrev pub nt_success : NtStatus → Bool
nt_success success = true
nt_success (other good code) = good
nt_success s = false
