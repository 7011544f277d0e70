-- ===== src/Client/Details/Volumes.antt =====
-- MiniMonClient/src/trace/details/volume.cpp: IRP_MJ_QUERY_VOLUME_INFORMATION and
-- IRP_MJ_SET_VOLUME_INFORMATION.
pub mod Values
use minifilter_monitor.Common.{
  ℕ, ◌/◌, ◌%◌, ◌^◌, List, [], ◌∷◌, ◌++◌, ◌==◌, flatten, drop, Option, none, some, codes,
  if◌then◌else◌,
}
use minifilter_monitor.Protocol.{RecordData}
use minifilter_monitor.Protocol.Supplements.{Payload}
use minifilter_monitor.Protocol.Parameters.Requests.{volume_information_parameters}
use minifilter_monitor.Client.Text.{format_hex}
use minifilter_monitor.Client.Number.{to_wstring}
use minifilter_monitor.Client.Names.Payloads.{render_fs_info_class}
use minifilter_monitor.Client.Payload.{member, read_value, read_header, render_name}
use minifilter_monitor.Client.Payload.Values.{render_boolean}
use minifilter_monitor.Client.Windows.{Windows}
use minifilter_monitor.Client.Details.Members.{extract_payload, volume_info_member}
use minifilter_monitor.Client.Details.Requests.{append_text, labelled_if, nonzero, ◌>>=◌}
use Values.{
  signed_32, render_size_payload, render_device_payload, render_control_payload,
  render_full_size_payload, render_object_id_payload, render_volume_flags_payload,
  render_sector_size_payload, render_data_copy_payload, render_metadata_size_payload,
  render_full_size_ex_payload, render_guid_payload,
}

-- FILE_FS_VOLUME_INFORMATION, with the label at 18.
unfoldable pub render_volume_payload : Windows → List ℕ → List ℕ → List ℕ
render_volume_payload windows value label_data = flatten (
    (if nonzero (member value 0 8)
      then codes "VolumeCreationTime: " ++ (windows.render_time (member value 0 8) ++ codes ", ")
      else [])
    ∷ codes "VolumeSerialNumber: "
    ∷ format_hex 4 (member value 8 4 / 2 ^ 16)
    ∷ codes "-"
    ∷ format_hex 4 (member value 8 4 % 2 ^ 16)
    ∷ codes ", SupportsObjects: "
    ∷ render_boolean (nonzero (member value 16 1))
    ∷ labelled_if (nonzero (member value 12 4)) (codes ", VolumeLabel: ")
        (render_name label_data (member value 12 4))
    ∷ [])

-- FILE_FS_LABEL_INFORMATION, with the label at 4.
unfoldable pub render_label_payload : List ℕ → List ℕ → List ℕ
render_label_payload value label_data =
    labelled_if (nonzero (member value 0 4)) (codes "VolumeLabel: ")
      (render_name label_data (member value 0 4))

-- FILE_FS_ATTRIBUTE_INFORMATION, with the name at 12.
unfoldable pub render_attribute_payload : Windows → List ℕ → List ℕ → List ℕ
render_attribute_payload windows value name_data = flatten (
    codes "FileSystemAttributes: "
    ∷ windows.render_file_system_attributes (member value 0 4)
    ∷ codes ", MaximumComponentNameLength: "
    ∷ signed_32 (member value 4 4)
    ∷ labelled_if (nonzero (member value 8 4)) (codes ", FileSystemName: ")
        (render_name name_data (member value 8 4))
    ∷ [])

-- A payload that is too short for its structure has no text.
abbrev pub with_bytes : Option (List ℕ) → (List ℕ → List ℕ) → List ℕ
with_bytes none f = []
with_bytes (some value) f = f value

-- RenderPayload.
unfoldable pub render_volume_info_payload : Windows → ℕ → List ℕ → List ℕ
render_volume_info_payload windows info_class payload =
    if info_class == 1
    then with_bytes (read_header payload 18 0)
        (λ value. render_volume_payload windows value (drop 18 payload))
    else if info_class == 2
    then with_bytes (read_header payload 4 0) (λ value. render_label_payload value (drop 4 payload))
    else if info_class == 3
    then with_bytes (read_value payload 24 0) render_size_payload
    else if info_class == 4
    then with_bytes (read_value payload 8 0) (render_device_payload windows)
    else if info_class == 5
    then with_bytes (read_header payload 12 0)
        (λ value. render_attribute_payload windows value (drop 12 payload))
    else if info_class == 6
    then with_bytes (read_value payload 48 0) render_control_payload
    else if info_class == 7
    then with_bytes (read_value payload 32 0) render_full_size_payload
    else if info_class == 8
    then with_bytes (read_value payload 64 0) render_object_id_payload
    else if info_class == 10
    then with_bytes (read_value payload 4 0) render_volume_flags_payload
    else if info_class == 11
    then with_bytes (read_value payload 28 0) render_sector_size_payload
    else if info_class == 12
    then with_bytes (read_value payload 4 0) render_data_copy_payload
    else if info_class == 13
    then with_bytes (read_value payload 16 0) render_metadata_size_payload
    else if info_class == 14
    then with_bytes (read_value payload 96 0) render_full_size_ex_payload
    else if info_class == 15
    then with_bytes (read_value payload 16 0) render_guid_payload
    else []

-- volume::Render.
unfoldable pub render_volume : Windows → RecordData → Option (List ℕ)
render_volume windows r =
    let p = volume_information_parameters r.parameters in
    volume_info_member r.supplement >>= λ s. extract_payload s >>= λ payload. some (
      append_text
        (flatten (
          codes "Class: "
          ∷ render_fs_info_class p.fs_information_class
          ∷ codes ", Length: "
          ∷ to_wstring p.length
          ∷ []))
        (render_volume_info_payload windows p.fs_information_class payload))
