-- ===== src/Client/Names/Operations.antt =====
-- MiniMonClient/src/trace/names.cpp, with the values of kernel.h: the columns of every operation.
use minifilter_monitor.Common.{ℕ, List, [], ◌∷◌, ◌==◌, not, ◌%◌, ◌/◌, codes, if◌then◌else◌}
use minifilter_monitor.Client.Text.{format_hex}
use minifilter_monitor.Client.Flags.{FlagName, row, render_flags}
use minifilter_monitor.Client.Names.{Case, case, switch}

abbrev pub requestor_mode_names : List Case
requestor_mode_names = case 0 (codes "Kernel") ∷ case 1 (codes "User") ∷ []

unfoldable pub render_requestor_mode : ℕ → List ℕ
render_requestor_mode mode = switch requestor_mode_names mode (format_hex 2 mode)

abbrev pub io_priority_hint_names : List Case
io_priority_hint_names =
    case 0 (codes "Very Low")
    ∷ case 1 (codes "Low")
    ∷ case 2 (codes "Normal")
    ∷ case 3 (codes "High")
    ∷ case 4 (codes "Critical")
    ∷ []

unfoldable pub render_io_priority_hint : ℕ → List ℕ
render_io_priority_hint hint = switch io_priority_hint_names hint (format_hex 2 hint)

abbrev pub major_function_names : List Case
major_function_names =
    case 0 (codes "IRP_MJ_CREATE")
    ∷ case 1 (codes "IRP_MJ_CREATE_NAMED_PIPE")
    ∷ case 2 (codes "IRP_MJ_CLOSE")
    ∷ case 3 (codes "IRP_MJ_READ")
    ∷ case 4 (codes "IRP_MJ_WRITE")
    ∷ case 5 (codes "IRP_MJ_QUERY_INFORMATION")
    ∷ case 6 (codes "IRP_MJ_SET_INFORMATION")
    ∷ case 7 (codes "IRP_MJ_QUERY_EA")
    ∷ case 8 (codes "IRP_MJ_SET_EA")
    ∷ case 9 (codes "IRP_MJ_FLUSH_BUFFERS")
    ∷ case 0xa (codes "IRP_MJ_QUERY_VOLUME_INFORMATION")
    ∷ case 0xb (codes "IRP_MJ_SET_VOLUME_INFORMATION")
    ∷ case 0xc (codes "IRP_MJ_DIRECTORY_CONTROL")
    ∷ case 0xd (codes "IRP_MJ_FILE_SYSTEM_CONTROL")
    ∷ case 0xe (codes "IRP_MJ_DEVICE_CONTROL")
    ∷ case 0xf (codes "IRP_MJ_INTERNAL_DEVICE_CONTROL")
    ∷ case 0x10 (codes "IRP_MJ_SHUTDOWN")
    ∷ case 0x11 (codes "IRP_MJ_LOCK_CONTROL")
    ∷ case 0x12 (codes "IRP_MJ_CLEANUP")
    ∷ case 0x13 (codes "IRP_MJ_CREATE_MAILSLOT")
    ∷ case 0x14 (codes "IRP_MJ_QUERY_SECURITY")
    ∷ case 0x15 (codes "IRP_MJ_SET_SECURITY")
    ∷ case 0x16 (codes "IRP_MJ_POWER")
    ∷ case 0x17 (codes "IRP_MJ_SYSTEM_CONTROL")
    ∷ case 0x18 (codes "IRP_MJ_DEVICE_CHANGE")
    ∷ case 0x19 (codes "IRP_MJ_QUERY_QUOTA")
    ∷ case 0x1a (codes "IRP_MJ_SET_QUOTA")
    ∷ case 0x1b (codes "IRP_MJ_PNP")
    ∷ case 0xff (codes "IRP_MJ_ACQUIRE_FOR_SECTION_SYNCHRONIZATION")
    ∷ case 0xfe (codes "IRP_MJ_RELEASE_FOR_SECTION_SYNCHRONIZATION")
    ∷ case 0xfd (codes "IRP_MJ_ACQUIRE_FOR_MOD_WRITE")
    ∷ case 0xfc (codes "IRP_MJ_RELEASE_FOR_MOD_WRITE")
    ∷ case 0xfb (codes "IRP_MJ_ACQUIRE_FOR_CC_FLUSH")
    ∷ case 0xfa (codes "IRP_MJ_RELEASE_FOR_CC_FLUSH")
    ∷ case 0xf9 (codes "IRP_MJ_QUERY_OPEN")
    ∷ case 0xf3 (codes "IRP_MJ_FAST_IO_CHECK_IF_POSSIBLE")
    ∷ case 0xf2 (codes "IRP_MJ_NETWORK_QUERY_OPEN")
    ∷ case 0xf1 (codes "IRP_MJ_MDL_READ")
    ∷ case 0xf0 (codes "IRP_MJ_MDL_READ_COMPLETE")
    ∷ case 0xef (codes "IRP_MJ_PREPARE_MDL_WRITE")
    ∷ case 0xee (codes "IRP_MJ_MDL_WRITE_COMPLETE")
    ∷ case 0xed (codes "IRP_MJ_VOLUME_MOUNT")
    ∷ case 0xec (codes "IRP_MJ_VOLUME_DISMOUNT")
    ∷ []

unfoldable pub render_major_function : ℕ → List ℕ
render_major_function major = switch major_function_names major (format_hex 2 major)

-- The three bits of the flags, each tested by the mask.
unfoldable pub render_operation_category : ℕ → List ℕ
render_operation_category flags =
    if not (flags % 2 == 0)
    then codes "IRP"
    else if not (flags / 2 % 2 == 0)
    then codes "FASTIO"
    else if not (flags / 4 % 2 == 0)
    then codes "FSFILTER"
    else codes "OTHER"

abbrev pub paging_irp_flag_names : List FlagName
paging_irp_flag_names =
    row 1 (codes "Non-cached")
    ∷ row 2 (codes "Paging I/O")
    ∷ row 4 (codes "Synchronous")
    ∷ row 8 (codes "Associated IRP")
    ∷ row 0x40 (codes "Synchronous Paging I/O")
    ∷ row 0x80 (codes "Create Operation")
    ∷ row 0x100 (codes "Read Operation")
    ∷ row 0x200 (codes "Write Operation")
    ∷ row 0x400 (codes "Close Operation")
    ∷ row 0x800 (codes "Defer I/O Completion")
    ∷ row 0x1000 (codes "Ob Query Name")
    ∷ row 0x2000 (codes "Hold Device Queue")
    ∷ row 0x400000 (codes "UM Driver Initiated I/O")
    ∷ []

abbrev pub irp_flag_names : List FlagName
irp_flag_names =
    row 1 (codes "Non-cached")
    ∷ row 4 (codes "Synchronous")
    ∷ row 8 (codes "Associated IRP")
    ∷ row 0x10 (codes "Buffered I/O")
    ∷ row 0x20 (codes "Deallocate Buffer")
    ∷ row 0x40 (codes "Input Operation")
    ∷ row 0x80 (codes "Create Operation")
    ∷ row 0x100 (codes "Read Operation")
    ∷ row 0x200 (codes "Write Operation")
    ∷ row 0x400 (codes "Close Operation")
    ∷ row 0x800 (codes "Defer I/O Completion")
    ∷ row 0x1000 (codes "Ob Query Name")
    ∷ row 0x2000 (codes "Hold Device Queue")
    ∷ row 0x400000 (codes "UM Driver Initiated I/O")
    ∷ []

-- The bit 1 of the flags is IRP_PAGING_IO.
unfoldable pub render_irp_flags : ℕ → List ℕ
unfolding render_flags
render_irp_flags flags =
    if not (flags / 2 % 2 == 0)
    then render_flags flags paging_irp_flag_names (codes "|")
    else render_flags flags irp_flag_names (codes "|")
