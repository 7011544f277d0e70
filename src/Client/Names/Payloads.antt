-- ===== src/Client/Names/Payloads.antt =====
-- MiniMonClient/src/trace/names.cpp, with the values of kernel.h: the words in the payloads of files and volumes.
use minifilter_monitor.Common.{ℕ, List, [], ◌∷◌, ◌==◌, codes, if◌then◌else◌}
use minifilter_monitor.Client.Number.{to_wstring, prefixed_hex}
use minifilter_monitor.Client.Flags.{FlagName, row, render_flags}
use minifilter_monitor.Client.Names.{Case, case, switch}

abbrev pub remote_protocol_flag_names : List FlagName
remote_protocol_flag_names =
    row 1 (codes "Loopback")
    ∷ row 2 (codes "Offline")
    ∷ row 4 (codes "Persistent Handle")
    ∷ row 8 (codes "Privacy")
    ∷ row 0x10 (codes "Integrity")
    ∷ row 0x20 (codes "Mutual Auth")
    ∷ []

unfoldable pub render_remote_protocol_flags : ℕ → List ℕ
unfolding render_flags
render_remote_protocol_flags flags = render_flags flags remote_protocol_flag_names (codes "|")

abbrev pub disposition_flag_names : List FlagName
disposition_flag_names =
    row 1 (codes "Delete")
    ∷ row 2 (codes "POSIX Semantics")
    ∷ row 4 (codes "Force Image Section Check")
    ∷ row 8 (codes "On Close")
    ∷ row 0x10 (codes "Ignore Readonly Attribute")
    ∷ []

unfoldable pub render_disposition_flags : ℕ → List ℕ
unfolding render_flags
render_disposition_flags flags =
    if flags == 0
    then codes "Do Not Delete"
    else render_flags flags disposition_flag_names (codes "|")

abbrev pub rename_flag_names : List FlagName
rename_flag_names =
    row 0x180 (codes "Force Resize SR")
    ∷ row 0x30 (codes "Preserve Available Space")
    ∷ row 1 (codes "Replace If Exists")
    ∷ row 2 (codes "POSIX Semantics")
    ∷ row 4 (codes "Suppress Pin State Inheritance")
    ∷ row 8 (codes "Suppress Storage Reserve Inheritance")
    ∷ row 0x10 (codes "No Increase Available Space")
    ∷ row 0x20 (codes "No Decrease Available Space")
    ∷ row 0x40 (codes "Ignore Readonly Attribute")
    ∷ row 0x80 (codes "Force Resize Target SR")
    ∷ row 0x100 (codes "Force Resize Source SR")
    ∷ []

unfoldable pub render_rename_flags : ℕ → List ℕ
unfolding render_flags
render_rename_flags flags = render_flags flags rename_flag_names (codes "|")

abbrev pub link_flag_names : List FlagName
link_flag_names =
    row 0x180 (codes "Force Resize SR")
    ∷ row 0x30 (codes "Preserve Available Space")
    ∷ row 1 (codes "Replace If Exists")
    ∷ row 2 (codes "POSIX Semantics")
    ∷ row 8 (codes "Suppress Storage Reserve Inheritance")
    ∷ row 0x10 (codes "No Increase Available Space")
    ∷ row 0x20 (codes "No Decrease Available Space")
    ∷ row 0x40 (codes "Ignore Readonly Attribute")
    ∷ row 0x80 (codes "Force Resize Target SR")
    ∷ row 0x100 (codes "Force Resize Source SR")
    ∷ []

unfoldable pub render_link_flags : ℕ → List ℕ
unfolding render_flags
render_link_flags flags = render_flags flags link_flag_names (codes "|")

abbrev pub known_folder_type_names : List Case
known_folder_type_names =
    case 0 (codes "KnownFolderNone")
    ∷ case 1 (codes "KnownFolderDesktop")
    ∷ case 2 (codes "KnownFolderDocuments")
    ∷ case 3 (codes "KnownFolderDownloads")
    ∷ case 4 (codes "KnownFolderMusic")
    ∷ case 5 (codes "KnownFolderPictures")
    ∷ case 6 (codes "KnownFolderVideos")
    ∷ case 7 (codes "KnownFolderOther")
    ∷ []

unfoldable pub render_known_folder_type : ℕ → List ℕ
render_known_folder_type type_code =
    switch known_folder_type_names type_code (prefixed_hex type_code)

abbrev pub ea_flag_names : List FlagName
ea_flag_names = row 0x80 (codes "FILE_NEED_EA") ∷ []

unfoldable pub render_ea_flags : ℕ → List ℕ
unfolding render_flags
render_ea_flags flags = render_flags flags ea_flag_names (codes "|")

abbrev pub query_flag_names : List FlagName
query_flag_names =
    row 1 (codes "Restart Scan")
    ∷ row 2 (codes "Return Single Entry")
    ∷ row 4 (codes "Index Specified")
    ∷ row 8 (codes "Return On Disk Entries Only")
    ∷ row 0x10 (codes "No Cursor Update")
    ∷ []

unfoldable pub render_query_flags : ℕ → List ℕ
unfolding render_flags
render_query_flags flags = render_flags flags query_flag_names (codes "|")

abbrev pub flush_flag_names : List FlagName
flush_flag_names = row 1 (codes "Force Asynchronous") ∷ []

unfoldable pub render_flush_flags : ℕ → List ℕ
unfolding render_flags
render_flush_flags flags = render_flags flags flush_flag_names (codes "|")

abbrev pub fs_info_class_names : List Case
fs_info_class_names =
    case 1 (codes "FileFsVolumeInformation")
    ∷ case 2 (codes "FileFsLabelInformation")
    ∷ case 3 (codes "FileFsSizeInformation")
    ∷ case 4 (codes "FileFsDeviceInformation")
    ∷ case 5 (codes "FileFsAttributeInformation")
    ∷ case 6 (codes "FileFsControlInformation")
    ∷ case 7 (codes "FileFsFullSizeInformation")
    ∷ case 8 (codes "FileFsObjectIdInformation")
    ∷ case 9 (codes "FileFsDriverPathInformation")
    ∷ case 0xa (codes "FileFsVolumeFlagsInformation")
    ∷ case 0xb (codes "FileFsSectorSizeInformation")
    ∷ case 0xc (codes "FileFsDataCopyInformation")
    ∷ case 0xd (codes "FileFsMetadataSizeInformation")
    ∷ case 0xe (codes "FileFsFullSizeInformationEx")
    ∷ case 0xf (codes "FileFsGuidInformation")
    ∷ []

unfoldable pub render_fs_info_class : ℕ → List ℕ
render_fs_info_class info_class = switch fs_info_class_names info_class (to_wstring info_class)

abbrev pub file_system_control_flag_names : List FlagName
file_system_control_flag_names =
    row 1 (codes "FILE_VC_QUOTA_TRACK")
    ∷ row 2 (codes "FILE_VC_QUOTA_ENFORCE")
    ∷ row 8 (codes "FILE_VC_CONTENT_INDEX_DISABLED")
    ∷ row 0x10 (codes "FILE_VC_LOG_QUOTA_THRESHOLD")
    ∷ row 0x20 (codes "FILE_VC_LOG_QUOTA_LIMIT")
    ∷ row 0x40 (codes "FILE_VC_LOG_VOLUME_THRESHOLD")
    ∷ row 0x80 (codes "FILE_VC_LOG_VOLUME_LIMIT")
    ∷ row 0x100 (codes "FILE_VC_QUOTAS_INCOMPLETE")
    ∷ row 0x200 (codes "FILE_VC_QUOTAS_REBUILDING")
    ∷ []

unfoldable pub render_file_system_control_flags : ℕ → List ℕ
unfolding render_flags
render_file_system_control_flags flags =
    if flags == 0
    then codes "None"
    else render_flags flags file_system_control_flag_names (codes "|")

abbrev pub notify_flag_names : List FlagName
notify_flag_names = row 1 (codes "Watch Tree") ∷ []

unfoldable pub render_notify_flags : ℕ → List ℕ
unfolding render_flags
render_notify_flags flags = render_flags flags notify_flag_names (codes "|")

abbrev pub directory_notify_info_class_names : List Case
directory_notify_info_class_names =
    case 1 (codes "DirectoryNotifyInformation")
    ∷ case 2 (codes "DirectoryNotifyExtendedInformation")
    ∷ case 3 (codes "DirectoryNotifyFullInformation")
    ∷ []

unfoldable pub render_directory_notify_info_class : ℕ → List ℕ
render_directory_notify_info_class info_class =
    switch directory_notify_info_class_names info_class (to_wstring info_class)
