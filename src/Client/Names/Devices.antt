-- ===== src/Client/Names/Devices.antt =====
-- MiniMonClient/src/trace/names.cpp, with the values of kernel.h: the words of devices and sections.
use minifilter_monitor.Common.{ℕ, List, [], ◌∷◌, codes}
use minifilter_monitor.Client.Number.{to_wstring, prefixed_hex}
use minifilter_monitor.Client.Flags.{FlagName, row, render_flags}
use minifilter_monitor.Client.Names.{Case, case, switch}

abbrev pub verify_volume_flag_names : List FlagName
verify_volume_flag_names = row 1 (codes "Allow Raw Mount") ∷ []

unfoldable pub render_verify_volume_flags : ℕ → List ℕ
unfolding render_flags
render_verify_volume_flags flags = render_flags flags verify_volume_flag_names (codes "|")

abbrev pub symlink_flag_names : List FlagName
symlink_flag_names = row 1 (codes "SYMLINK_FLAG_RELATIVE") ∷ []

unfoldable pub render_symlink_flags : ℕ → List ℕ
unfolding render_flags
render_symlink_flags flags = render_flags flags symlink_flag_names (codes "|")

abbrev pub device_io_flag_names : List FlagName
device_io_flag_names =
    row 1 (codes "Read Access Granted")
    ∷ row 2 (codes "Override Verify Volume")
    ∷ row 4 (codes "Write Access Granted")
    ∷ []

unfoldable pub render_device_io_flags : ℕ → List ℕ
unfolding render_flags
render_device_io_flags flags = render_flags flags device_io_flag_names (codes "|")

abbrev pub device_relation_type_names : List Case
device_relation_type_names =
    case 0 (codes "BusRelations")
    ∷ case 1 (codes "EjectionRelations")
    ∷ case 2 (codes "PowerRelations")
    ∷ case 3 (codes "RemovalRelations")
    ∷ case 4 (codes "TargetDeviceRelation")
    ∷ case 5 (codes "SingleBusRelations")
    ∷ case 6 (codes "TransportRelations")
    ∷ []

unfoldable pub render_device_relation_type : ℕ → List ℕ
render_device_relation_type type_code =
    switch device_relation_type_names type_code (prefixed_hex type_code)

abbrev pub device_usage_notification_type_names : List Case
device_usage_notification_type_names =
    case 0 (codes "DeviceUsageTypeUndefined")
    ∷ case 1 (codes "DeviceUsageTypePaging")
    ∷ case 2 (codes "DeviceUsageTypeHibernation")
    ∷ case 3 (codes "DeviceUsageTypeDumpFile")
    ∷ case 4 (codes "DeviceUsageTypeBoot")
    ∷ case 5 (codes "DeviceUsageTypePostDisplay")
    ∷ case 6 (codes "DeviceUsageTypeGuestAssigned")
    ∷ case 7 (codes "DeviceUsageTypeInlineCryptoEngine")
    ∷ []

unfoldable pub render_device_usage_notification_type : ℕ → List ℕ
render_device_usage_notification_type type_code =
    switch device_usage_notification_type_names type_code (prefixed_hex type_code)

abbrev pub section_sync_type_names : List Case
section_sync_type_names =
    case 0 (codes "SyncTypeOther") ∷ case 1 (codes "SyncTypeCreateSection") ∷ []

unfoldable pub render_section_sync_type : ℕ → List ℕ
render_section_sync_type type_code = switch section_sync_type_names type_code (to_wstring type_code)

abbrev pub section_sync_flag_names : List FlagName
section_sync_flag_names =
    row 1 (codes "FS_FILTER_SECTION_SYNC_IN_FLAG_DONT_UPDATE_LAST_ACCESS")
    ∷ row 2 (codes "FS_FILTER_SECTION_SYNC_IN_FLAG_DONT_UPDATE_LAST_WRITE")
    ∷ []

unfoldable pub render_section_sync_flags : ℕ → List ℕ
unfolding render_flags
render_section_sync_flags flags = render_flags flags section_sync_flag_names (codes "|")
