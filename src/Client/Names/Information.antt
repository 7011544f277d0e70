-- ===== src/Client/Names/Information.antt =====
-- MiniMonClient/src/trace/names.cpp, with the values of kernel.h: the information classes of files.
use minifilter_monitor.Common.{ℕ, List, [], ◌∷◌, ◌==◌, ◌||◌, codes, if◌then◌else◌}
use minifilter_monitor.Client.Number.{to_wstring}
use minifilter_monitor.Client.Flags.{FlagName, row, render_flags}
use minifilter_monitor.Client.Names.{Case, case, switch}

abbrev pub file_info_class_names : List Case
file_info_class_names =
    case 1 (codes "FileDirectoryInformation")
    ∷ case 2 (codes "FileFullDirectoryInformation")
    ∷ case 3 (codes "FileBothDirectoryInformation")
    ∷ case 4 (codes "FileBasicInformation")
    ∷ case 5 (codes "FileStandardInformation")
    ∷ case 6 (codes "FileInternalInformation")
    ∷ case 7 (codes "FileEaInformation")
    ∷ case 8 (codes "FileAccessInformation")
    ∷ case 9 (codes "FileNameInformation")
    ∷ case 0xa (codes "FileRenameInformation")
    ∷ case 0xb (codes "FileLinkInformation")
    ∷ case 0xc (codes "FileNamesInformation")
    ∷ case 0xd (codes "FileDispositionInformation")
    ∷ case 0xe (codes "FilePositionInformation")
    ∷ case 0xf (codes "FileFullEaInformation")
    ∷ case 0x10 (codes "FileModeInformation")
    ∷ case 0x11 (codes "FileAlignmentInformation")
    ∷ case 0x12 (codes "FileAllInformation")
    ∷ case 0x13 (codes "FileAllocationInformation")
    ∷ case 0x14 (codes "FileEndOfFileInformation")
    ∷ case 0x15 (codes "FileAlternateNameInformation")
    ∷ case 0x16 (codes "FileStreamInformation")
    ∷ case 0x17 (codes "FilePipeInformation")
    ∷ case 0x18 (codes "FilePipeLocalInformation")
    ∷ case 0x19 (codes "FilePipeRemoteInformation")
    ∷ case 0x1a (codes "FileMailslotQueryInformation")
    ∷ case 0x1b (codes "FileMailslotSetInformation")
    ∷ case 0x1c (codes "FileCompressionInformation")
    ∷ case 0x1d (codes "FileObjectIdInformation")
    ∷ case 0x1e (codes "FileCompletionInformation")
    ∷ case 0x1f (codes "FileMoveClusterInformation")
    ∷ case 0x20 (codes "FileQuotaInformation")
    ∷ case 0x21 (codes "FileReparsePointInformation")
    ∷ case 0x22 (codes "FileNetworkOpenInformation")
    ∷ case 0x23 (codes "FileAttributeTagInformation")
    ∷ case 0x24 (codes "FileTrackingInformation")
    ∷ case 0x25 (codes "FileIdBothDirectoryInformation")
    ∷ case 0x26 (codes "FileIdFullDirectoryInformation")
    ∷ case 0x27 (codes "FileValidDataLengthInformation")
    ∷ case 0x28 (codes "FileShortNameInformation")
    ∷ case 0x29 (codes "FileIoCompletionNotificationInformation")
    ∷ case 0x2a (codes "FileIoStatusBlockRangeInformation")
    ∷ case 0x2b (codes "FileIoPriorityHintInformation")
    ∷ case 0x2c (codes "FileSfioReserveInformation")
    ∷ case 0x2d (codes "FileSfioVolumeInformation")
    ∷ case 0x2e (codes "FileHardLinkInformation")
    ∷ case 0x2f (codes "FileProcessIdsUsingFileInformation")
    ∷ case 0x30 (codes "FileNormalizedNameInformation")
    ∷ case 0x31 (codes "FileNetworkPhysicalNameInformation")
    ∷ case 0x32 (codes "FileIdGlobalTxDirectoryInformation")
    ∷ case 0x33 (codes "FileIsRemoteDeviceInformation")
    ∷ case 0x34 (codes "FileUnusedInformation")
    ∷ case 0x35 (codes "FileNumaNodeInformation")
    ∷ case 0x36 (codes "FileStandardLinkInformation")
    ∷ case 0x37 (codes "FileRemoteProtocolInformation")
    ∷ case 0x38 (codes "FileRenameInformationBypassAccessCheck")
    ∷ case 0x39 (codes "FileLinkInformationBypassAccessCheck")
    ∷ case 0x3a (codes "FileVolumeNameInformation")
    ∷ case 0x3b (codes "FileIdInformation")
    ∷ case 0x3c (codes "FileIdExtdDirectoryInformation")
    ∷ case 0x3d (codes "FileReplaceCompletionInformation")
    ∷ case 0x3e (codes "FileHardLinkFullIdInformation")
    ∷ case 0x3f (codes "FileIdExtdBothDirectoryInformation")
    ∷ case 0x40 (codes "FileDispositionInformationEx")
    ∷ case 0x41 (codes "FileRenameInformationEx")
    ∷ case 0x42 (codes "FileRenameInformationExBypassAccessCheck")
    ∷ case 0x43 (codes "FileDesiredStorageClassInformation")
    ∷ case 0x44 (codes "FileStatInformation")
    ∷ case 0x45 (codes "FileMemoryPartitionInformation")
    ∷ case 0x46 (codes "FileStatLxInformation")
    ∷ case 0x47 (codes "FileCaseSensitiveInformation")
    ∷ case 0x48 (codes "FileLinkInformationEx")
    ∷ case 0x49 (codes "FileLinkInformationExBypassAccessCheck")
    ∷ case 0x4a (codes "FileStorageReserveIdInformation")
    ∷ case 0x4b (codes "FileCaseSensitiveInformationForceAccessCheck")
    ∷ case 0x4c (codes "FileKnownFolderInformation")
    ∷ case 0x4d (codes "FileStatBasicInformation")
    ∷ case 0x4e (codes "FileId64ExtdDirectoryInformation")
    ∷ case 0x4f (codes "FileId64ExtdBothDirectoryInformation")
    ∷ case 0x50 (codes "FileIdAllExtdDirectoryInformation")
    ∷ case 0x51 (codes "FileIdAllExtdBothDirectoryInformation")
    ∷ case 0x52 (codes "FileStreamReservationInformation")
    ∷ case 0x53 (codes "FileMupProviderInfo")
    ∷ []

unfoldable pub render_file_info_class : ℕ → List ℕ
render_file_info_class info_class = switch file_info_class_names info_class (to_wstring info_class)

abbrev pub rename_information_flag_names : List FlagName
rename_information_flag_names =
    row 1 (codes "Bypass Access Check") ∷ row 0x40 (codes "Ignore Readonly Attribute") ∷ []

abbrev pub case_sensitive_information_flag_names : List FlagName
case_sensitive_information_flag_names =
    row 1 (codes "Force Access Check") ∷ row 0x40 (codes "Ignore Readonly Attribute") ∷ []

abbrev pub information_flag_names : List FlagName
information_flag_names = row 0x40 (codes "Ignore Readonly Attribute") ∷ []

unfoldable pub render_info_flags : ℕ → ℕ → List ℕ
unfolding render_flags
render_info_flags info_class flags =
    if info_class == 0xa
      || info_class == 0xb
      || info_class == 0x38
      || info_class == 0x39
      || info_class == 0x41
      || info_class == 0x42
      || info_class == 0x48
      || info_class == 0x49
    then render_flags flags rename_information_flag_names (codes "|")
    else if info_class == 0x47 || info_class == 0x4b
    then render_flags flags case_sensitive_information_flag_names (codes "|")
    else render_flags flags information_flag_names (codes "|")
