-- ===== src/Client/Details/Volumes/Values.antt =====
-- MiniMonClient/src/trace/details/volume.cpp: the structures of a fixed size. A value is its bytes, with
-- the offsets that the structures of kernel.h have.
use minifilter_monitor.Common.{
  ℕ, ◌+◌, ◌-◌, ◌^◌, false, List, [], ◌∷◌, flatten, ltb, take, drop, codes, if◌then◌else◌,
}
use minifilter_monitor.Client.Number.{to_wstring, to_wstring_signed, prefixed_hex}
use minifilter_monitor.Client.Names.Payloads.{render_file_system_control_flags}
use minifilter_monitor.Client.Payload.{member}
use minifilter_monitor.Client.Payload.Values.{render_guid, render_bytes}
use minifilter_monitor.Client.Windows.{Windows}

-- The text of an int32_t by its bits.
unfoldable pub signed_32 : ℕ → List ℕ
signed_32 n = to_wstring_signed (if ltb n (2 ^ 31) then n else n + (2 ^ 64 - 2 ^ 32))

-- FILE_FS_SIZE_INFORMATION, 24 bytes.
unfoldable pub render_size_payload : List ℕ → List ℕ
render_size_payload value = flatten (
    codes "TotalAllocationUnits: "
    ∷ to_wstring_signed (member value 0 8)
    ∷ codes ", AvailableAllocationUnits: "
    ∷ to_wstring_signed (member value 8 8)
    ∷ codes ", SectorsPerAllocationUnit: "
    ∷ to_wstring (member value 16 4)
    ∷ codes ", BytesPerSector: "
    ∷ to_wstring (member value 20 4)
    ∷ [])

-- FILE_FS_DEVICE_INFORMATION, 8 bytes.
unfoldable pub render_device_payload : Windows → List ℕ → List ℕ
render_device_payload windows value = flatten (
    codes "DeviceType: "
    ∷ windows.render_device_type (member value 0 4)
    ∷ codes ", Characteristics: "
    ∷ prefixed_hex (member value 4 4)
    ∷ [])

-- FILE_FS_CONTROL_INFORMATION, 48 bytes.
unfoldable pub render_control_payload : List ℕ → List ℕ
render_control_payload value = flatten (
    codes "FreeSpaceStartFiltering: "
    ∷ to_wstring_signed (member value 0 8)
    ∷ codes ", FreeSpaceThreshold: "
    ∷ to_wstring_signed (member value 8 8)
    ∷ codes ", FreeSpaceStopFiltering: "
    ∷ to_wstring_signed (member value 16 8)
    ∷ codes ", DefaultQuotaThreshold: "
    ∷ to_wstring_signed (member value 24 8)
    ∷ codes ", DefaultQuotaLimit: "
    ∷ to_wstring_signed (member value 32 8)
    ∷ codes ", FileSystemControlFlags: "
    ∷ render_file_system_control_flags (member value 40 4)
    ∷ [])

-- FILE_FS_FULL_SIZE_INFORMATION, 32 bytes.
unfoldable pub render_full_size_payload : List ℕ → List ℕ
render_full_size_payload value = flatten (
    codes "TotalAllocationUnits: "
    ∷ to_wstring_signed (member value 0 8)
    ∷ codes ", CallerAvailableAllocationUnits: "
    ∷ to_wstring_signed (member value 8 8)
    ∷ codes ", ActualAvailableAllocationUnits: "
    ∷ to_wstring_signed (member value 16 8)
    ∷ codes ", SectorsPerAllocationUnit: "
    ∷ to_wstring (member value 24 4)
    ∷ codes ", BytesPerSector: "
    ∷ to_wstring (member value 28 4)
    ∷ [])

-- FILE_FS_OBJECTID_INFORMATION, 64 bytes.
unfoldable pub render_object_id_payload : List ℕ → List ℕ
render_object_id_payload value = flatten (
    codes "ObjectId: "
    ∷ render_guid (take 16 (drop 0 value))
    ∷ codes ", ExtendedInfo: "
    ∷ render_bytes (take 48 (drop 16 value)) false
    ∷ [])

-- FILE_FS_VOLUME_FLAGS_INFORMATION, 4 bytes.
unfoldable pub render_volume_flags_payload : List ℕ → List ℕ
render_volume_flags_payload value = flatten (codes "Flags: " ∷ prefixed_hex (member value 0 4) ∷ [])

-- FILE_FS_SECTOR_SIZE_INFORMATION, 28 bytes.
unfoldable pub render_sector_size_payload : List ℕ → List ℕ
render_sector_size_payload value = flatten (
    codes "LogicalBytesPerSector: "
    ∷ to_wstring (member value 0 4)
    ∷ codes ", PhysicalBytesPerSectorForAtomicity: "
    ∷ to_wstring (member value 4 4)
    ∷ codes ", PhysicalBytesPerSectorForPerformance: "
    ∷ to_wstring (member value 8 4)
    ∷ codes ", FileSystemEffectivePhysicalBytesPerSectorForAtomicity: "
    ∷ to_wstring (member value 12 4)
    ∷ codes ", Flags: "
    ∷ prefixed_hex (member value 16 4)
    ∷ codes ", ByteOffsetForSectorAlignment: "
    ∷ to_wstring (member value 20 4)
    ∷ codes ", ByteOffsetForPartitionAlignment: "
    ∷ to_wstring (member value 24 4)
    ∷ [])

-- FILE_FS_DATA_COPY_INFORMATION, 4 bytes.
unfoldable pub render_data_copy_payload : List ℕ → List ℕ
render_data_copy_payload value =
    flatten (codes "NumberOfCopies: " ∷ to_wstring (member value 0 4) ∷ [])

-- FILE_FS_METADATA_SIZE_INFORMATION, 16 bytes.
unfoldable pub render_metadata_size_payload : List ℕ → List ℕ
render_metadata_size_payload value = flatten (
    codes "TotalMetadataAllocationUnits: "
    ∷ to_wstring_signed (member value 0 8)
    ∷ codes ", SectorsPerAllocationUnit: "
    ∷ to_wstring (member value 8 4)
    ∷ codes ", BytesPerSector: "
    ∷ to_wstring (member value 12 4)
    ∷ [])

-- FILE_FS_FULL_SIZE_INFORMATION_EX, 96 bytes.
unfoldable pub render_full_size_ex_payload : List ℕ → List ℕ
render_full_size_ex_payload value = flatten (
    codes "ActualTotalAllocationUnits: "
    ∷ to_wstring (member value 0 8)
    ∷ codes ", ActualAvailableAllocationUnits: "
    ∷ to_wstring (member value 8 8)
    ∷ codes ", ActualPoolUnavailableAllocationUnits: "
    ∷ to_wstring (member value 16 8)
    ∷ codes ", CallerTotalAllocationUnits: "
    ∷ to_wstring (member value 24 8)
    ∷ codes ", CallerAvailableAllocationUnits: "
    ∷ to_wstring (member value 32 8)
    ∷ codes ", CallerPoolUnavailableAllocationUnits: "
    ∷ to_wstring (member value 40 8)
    ∷ codes ", UsedAllocationUnits: "
    ∷ to_wstring (member value 48 8)
    ∷ codes ", TotalReservedAllocationUnits: "
    ∷ to_wstring (member value 56 8)
    ∷ codes ", VolumeStorageReserveAllocationUnits: "
    ∷ to_wstring (member value 64 8)
    ∷ codes ", AvailableCommittedAllocationUnits: "
    ∷ to_wstring (member value 72 8)
    ∷ codes ", PoolAvailableAllocationUnits: "
    ∷ to_wstring (member value 80 8)
    ∷ codes ", SectorsPerAllocationUnit: "
    ∷ to_wstring (member value 88 4)
    ∷ codes ", BytesPerSector: "
    ∷ to_wstring (member value 92 4)
    ∷ [])

-- FILE_FS_GUID_INFORMATION, 16 bytes.
unfoldable pub render_guid_payload : List ℕ → List ℕ
render_guid_payload value = flatten (codes "FsGuid: " ∷ render_guid (take 16 (drop 0 value)) ∷ [])
