-- ===== src/Client/Names/Minors.antt =====
-- MiniMonClient/src/trace/names.cpp, with the values of kernel.h: the minor functions of each major function.
use minifilter_monitor.Common.{ℕ, List, [], ◌∷◌, ◌==◌, ◌||◌, codes, if◌then◌else◌}
use minifilter_monitor.Client.Text.{format_hex}
use minifilter_monitor.Client.Names.{Case, case, switch}

abbrev pub directory_control_minors : List Case
directory_control_minors =
    case 1 (codes "IRP_MN_QUERY_DIRECTORY")
    ∷ case 2 (codes "IRP_MN_NOTIFY_CHANGE_DIRECTORY")
    ∷ case 3 (codes "IRP_MN_NOTIFY_CHANGE_DIRECTORY_EX")
    ∷ []

abbrev pub file_system_control_minors : List Case
file_system_control_minors =
    case 0 (codes "IRP_MN_USER_FS_REQUEST")
    ∷ case 1 (codes "IRP_MN_MOUNT_VOLUME")
    ∷ case 2 (codes "IRP_MN_VERIFY_VOLUME")
    ∷ case 3 (codes "IRP_MN_LOAD_FILE_SYSTEM")
    ∷ case 4 (codes "IRP_MN_KERNEL_CALL")
    ∷ []

abbrev pub lock_control_minors : List Case
lock_control_minors =
    case 1 (codes "IRP_MN_LOCK")
    ∷ case 2 (codes "IRP_MN_UNLOCK_SINGLE")
    ∷ case 3 (codes "IRP_MN_UNLOCK_ALL")
    ∷ case 4 (codes "IRP_MN_UNLOCK_ALL_BY_KEY")
    ∷ []

abbrev pub flush_buffers_minors : List Case
flush_buffers_minors =
    case 1 (codes "IRP_MN_FLUSH_AND_PURGE")
    ∷ case 2 (codes "IRP_MN_FLUSH_DATA_ONLY")
    ∷ case 3 (codes "IRP_MN_FLUSH_NO_SYNC")
    ∷ case 4 (codes "IRP_MN_FLUSH_DATA_SYNC_ONLY")
    ∷ []

abbrev pub read_minors : List Case
read_minors =
    case 0 (codes "IRP_MN_NORMAL")
    ∷ case 1 (codes "IRP_MN_DPC")
    ∷ case 2 (codes "IRP_MN_MDL")
    ∷ case 4 (codes "IRP_MN_COMPLETE")
    ∷ case 8 (codes "IRP_MN_COMPRESSED")
    ∷ case 3 (codes "IRP_MN_MDL_DPC")
    ∷ case 6 (codes "IRP_MN_COMPLETE_MDL")
    ∷ case 7 (codes "IRP_MN_COMPLETE_MDL_DPC")
    ∷ []

abbrev pub device_control_minors : List Case
device_control_minors = case 1 (codes "IRP_MN_SCSI_CLASS") ∷ []

abbrev pub pnp_minors : List Case
pnp_minors =
    case 0 (codes "IRP_MN_START_DEVICE")
    ∷ case 1 (codes "IRP_MN_QUERY_REMOVE_DEVICE")
    ∷ case 2 (codes "IRP_MN_REMOVE_DEVICE")
    ∷ case 3 (codes "IRP_MN_CANCEL_REMOVE_DEVICE")
    ∷ case 4 (codes "IRP_MN_STOP_DEVICE")
    ∷ case 5 (codes "IRP_MN_QUERY_STOP_DEVICE")
    ∷ case 6 (codes "IRP_MN_CANCEL_STOP_DEVICE")
    ∷ case 7 (codes "IRP_MN_QUERY_DEVICE_RELATIONS")
    ∷ case 8 (codes "IRP_MN_QUERY_INTERFACE")
    ∷ case 9 (codes "IRP_MN_QUERY_CAPABILITIES")
    ∷ case 0xa (codes "IRP_MN_QUERY_RESOURCES")
    ∷ case 0xb (codes "IRP_MN_QUERY_RESOURCE_REQUIREMENTS")
    ∷ case 0xc (codes "IRP_MN_QUERY_DEVICE_TEXT")
    ∷ case 0xd (codes "IRP_MN_FILTER_RESOURCE_REQUIREMENTS")
    ∷ case 0xf (codes "IRP_MN_READ_CONFIG")
    ∷ case 0x10 (codes "IRP_MN_WRITE_CONFIG")
    ∷ case 0x11 (codes "IRP_MN_EJECT")
    ∷ case 0x12 (codes "IRP_MN_SET_LOCK")
    ∷ case 0x13 (codes "IRP_MN_QUERY_ID")
    ∷ case 0x14 (codes "IRP_MN_QUERY_PNP_DEVICE_STATE")
    ∷ case 0x15 (codes "IRP_MN_QUERY_BUS_INFORMATION")
    ∷ case 0x16 (codes "IRP_MN_DEVICE_USAGE_NOTIFICATION")
    ∷ case 0x17 (codes "IRP_MN_SURPRISE_REMOVAL")
    ∷ case 0x18 (codes "IRP_MN_QUERY_LEGACY_BUS_INFORMATION")
    ∷ case 0x19 (codes "IRP_MN_DEVICE_ENUMERATED")
    ∷ []

abbrev pub power_minors : List Case
power_minors =
    case 0 (codes "IRP_MN_WAIT_WAKE")
    ∷ case 1 (codes "IRP_MN_POWER_SEQUENCE")
    ∷ case 2 (codes "IRP_MN_SET_POWER")
    ∷ case 3 (codes "IRP_MN_QUERY_POWER")
    ∷ []

abbrev pub system_control_minors : List Case
system_control_minors =
    case 0 (codes "IRP_MN_QUERY_ALL_DATA")
    ∷ case 1 (codes "IRP_MN_QUERY_SINGLE_INSTANCE")
    ∷ case 2 (codes "IRP_MN_CHANGE_SINGLE_INSTANCE")
    ∷ case 3 (codes "IRP_MN_CHANGE_SINGLE_ITEM")
    ∷ case 4 (codes "IRP_MN_ENABLE_EVENTS")
    ∷ case 5 (codes "IRP_MN_DISABLE_EVENTS")
    ∷ case 6 (codes "IRP_MN_ENABLE_COLLECTION")
    ∷ case 7 (codes "IRP_MN_DISABLE_COLLECTION")
    ∷ case 8 (codes "IRP_MN_REGINFO")
    ∷ case 9 (codes "IRP_MN_EXECUTE_METHOD")
    ∷ case 0xb (codes "IRP_MN_REGINFO_EX")
    ∷ []

-- The switch on the major function: the names of its minor functions.
abbrev pub minor_function_names : ℕ → List Case
minor_function_names major =
    if major == 0xc
    then directory_control_minors
    else if major == 0xd
    then file_system_control_minors
    else if major == 0x11
    then lock_control_minors
    else if major == 9
    then flush_buffers_minors
    else if major == 3 || major == 4
    then read_minors
    else if major == 0xe || major == 0xf
    then device_control_minors
    else if major == 0x1b
    then pnp_minors
    else if major == 0x16
    then power_minors
    else if major == 0x17
    then system_control_minors
    else []

unfoldable pub render_minor_function : ℕ → ℕ → List ℕ
render_minor_function major minor =
    switch (minor_function_names major) minor (if minor == 0 then [] else format_hex 2 minor)
