-- ===== src/Client/Details/Controls.antt =====
-- MiniMonClient/src/trace/details: lock.cpp, security.cpp, wmi.cpp, pnp.cpp, section.cpp, modwrite.cpp,
-- fastiocheck.cpp and mount.cpp.
use minifilter_monitor.Common.{
  ℕ, List, [], ◌∷◌, ◌++◌, ◌==◌, ◌&&◌, flatten, Option, some, codes, is_empty, if◌then◌else◌,
}
use minifilter_monitor.Protocol.{RecordData}
use minifilter_monitor.Protocol.Supplements.{LockControlSupplement}
use minifilter_monitor.Protocol.Parameters.Callbacks.{
  lock_control_parameters, query_security_parameters, set_security_parameters, wmi_parameters,
  pnp_parameters, acquire_for_section_synchronization_parameters,
  release_for_modified_page_writer_parameters,
}
use minifilter_monitor.Protocol.Parameters.FastIo.{
  fast_io_check_if_possible_parameters, mount_volume_parameters,
}
use minifilter_monitor.Client.Number.{to_wstring, to_wstring_signed, prefixed_hex}
use minifilter_monitor.Client.Text.{extract}
use minifilter_monitor.Client.Names.Devices.{
  render_device_relation_type, render_device_usage_notification_type, render_section_sync_type,
  render_section_sync_flags,
}
use minifilter_monitor.Client.Payload.Values.{render_boolean, render_byte_offset, render_guid}
use minifilter_monitor.Client.Windows.{Windows}
use minifilter_monitor.Client.Details.Members.{
  extract_payload, lock_control_member, security_member, wmi_member, mod_write_member, mount_member,
}
use minifilter_monitor.Client.Details.Requests.{
  append_text, labelled_if, has_bit, nonzero, without_last, ◌>>=◌,
}

-- RenderLockRange; the offset is printed without a sign.
unfoldable pub lock_range_text : RecordData → LockControlSupplement → List ℕ
unfolding lock_control_parameters to_wstring prefixed_hex
lock_range_text r s =
    let p = lock_control_parameters r.parameters in
    flatten (
      codes "Offset: "
      ∷ to_wstring p.byte_offset
      ∷ labelled_if s.captured_length (codes ", Length: ") (to_wstring s.length)
      ∷ labelled_if (nonzero p.key) (codes ", Key: ") (prefixed_hex p.key)
      ∷ [])

-- RenderLock: fast I/O has the two conditions in the parameters, an IRP in the operation flags.
unfoldable pub lock_text : RecordData → LockControlSupplement → List ℕ
unfolding lock_control_parameters lock_range_text render_boolean
lock_text r s =
    let p = lock_control_parameters r.parameters in
    let fast_io = has_bit r.flags 2 in
    let exclusive = if fast_io then nonzero p.exclusive_lock else has_bit r.operation_flags 2 in
    let immediately = if fast_io then nonzero p.fail_immediately else has_bit r.operation_flags 1 in
    flatten (
      codes "Exclusive: "
      ∷ render_boolean exclusive
      ∷ codes ", "
      ∷ lock_range_text r s
      ∷ codes ", Fail Immediately: "
      ∷ render_boolean immediately
      ∷ [])

unfoldable pub render_lock : RecordData → Option (List ℕ)
render_lock r =
    if r.callback_minor_id == 1
    then (lock_control_member r.supplement >>= λ s. some (lock_text r s))
    else if r.callback_minor_id == 2
    then (lock_control_member r.supplement >>= λ s. some (lock_range_text r s))
    else if r.callback_minor_id == 4
    then some (codes "Key: " ++ prefixed_hex (lock_control_parameters r.parameters).key)
    else some []

-- RenderDescriptorPayload: Windows makes the text of a descriptor that is not empty.
unfoldable pub render_descriptor_payload : Windows → List ℕ → ℕ → List ℕ
render_descriptor_payload windows payload information =
    if is_empty payload then [] else windows.render_descriptor payload information

-- security::RenderQuery.
unfoldable pub render_query_security : Windows → RecordData → Option (List ℕ)
render_query_security windows r =
    let p = query_security_parameters r.parameters in
    security_member r.supplement >>= λ s. extract_payload s >>= λ payload. some (
      append_text
        (flatten (
          codes "Information: "
          ∷ windows.render_security_information p.security_information
          ∷ codes ", Length: "
          ∷ to_wstring p.length
          ∷ []))
        (render_descriptor_payload windows payload p.security_information))

-- security::RenderSet.
unfoldable pub render_set_security : Windows → RecordData → Option (List ℕ)
render_set_security windows r =
    let p = set_security_parameters r.parameters in
    security_member r.supplement >>= λ s. extract_payload s >>= λ payload. some (
      append_text
        (codes "Information: " ++ windows.render_security_information p.security_information)
        (render_descriptor_payload windows payload p.security_information))

unfoldable pub render_wmi : RecordData → Option (List ℕ)
render_wmi r =
    let p = wmi_parameters r.parameters in
    wmi_member r.supplement >>= λ s. some (
      flatten (
        codes "ProviderId: "
        ∷ prefixed_hex p.provider_id
        ∷ codes ", BufferSize: "
        ∷ to_wstring p.buffer_size
        ∷ labelled_if s.captured_guid (codes ", Guid: ") (render_guid s.guid)
        ∷ []))

-- pnp::Render: IRP_MN_QUERY_DEVICE_RELATIONS and IRP_MN_DEVICE_USAGE_NOTIFICATION.
unfoldable pub render_pnp : RecordData → List ℕ
unfolding pnp_parameters render_boolean render_device_relation_type
    render_device_usage_notification_type
render_pnp r =
    let p = pnp_parameters r.parameters in
    if r.callback_minor_id == 7
    then codes "Type: " ++ render_device_relation_type p.relation_type
    else if r.callback_minor_id == 0x16
    then flatten (
        codes "InPath: "
        ∷ render_boolean (nonzero p.in_path)
        ∷ codes ", Type: "
        ∷ render_device_usage_notification_type p.usage_type
        ∷ [])
    else []

-- section::Render; 1 is SyncTypeCreateSection.
unfoldable pub render_section : Windows → RecordData → List ℕ
unfolding acquire_for_section_synchronization_parameters render_section_sync_type
    render_section_sync_flags
render_section windows r =
    let p = acquire_for_section_synchronization_parameters r.parameters in
    flatten (
      codes "SyncType: "
      ∷ render_section_sync_type p.sync_type
      ∷ labelled_if (nonzero p.page_protection) (codes ", PageProtection: ")
          (windows.render_page_protection p.page_protection)
      ∷ labelled_if (nonzero p.flags) (codes ", Flags: ") (render_section_sync_flags p.flags)
      ∷ labelled_if (p.sync_type == 1 && nonzero p.allocation_attributes)
          (codes ", AllocationAttributes: ")
          (windows.render_allocation_attributes p.allocation_attributes)
      ∷ [])

-- modwrite::RenderAcquire.
unfoldable pub render_acquire : RecordData → Option (List ℕ)
render_acquire r = mod_write_member r.supplement >>= λ s. some (
    without_last 2 (
      (if s.captured_ending_offset
        then codes "EndingOffset: " ++ (to_wstring_signed s.ending_offset ++ codes ", ")
        else [])
      ++ (if s.captured_resource
          then codes "Resource: " ++ (prefixed_hex s.resource ++ codes ", ")
          else [])))

-- modwrite::RenderRelease.
unfoldable pub render_release : RecordData → List ℕ
unfolding release_for_modified_page_writer_parameters prefixed_hex
render_release r =
    let resource = (release_for_modified_page_writer_parameters r.parameters).resource_to_release in
    labelled_if (nonzero resource) (codes "Resource: ") (prefixed_hex resource)

unfoldable pub render_fast_io_check : RecordData → List ℕ
unfolding fast_io_check_if_possible_parameters render_byte_offset to_wstring prefixed_hex
render_fast_io_check r =
    let p = fast_io_check_if_possible_parameters r.parameters in
    flatten (
      codes "Operation: "
      ∷ (if nonzero p.check_for_read_operation then codes "Read" else codes "Write")
      ∷ codes ", Offset: "
      ∷ render_byte_offset p.file_offset
      ∷ codes ", Length: "
      ∷ to_wstring p.length
      ∷ labelled_if (nonzero p.lock_key) (codes ", Key: ") (prefixed_hex p.lock_key)
      ∷ [])

unfoldable pub render_mount : Windows → RecordData → Option (List ℕ)
render_mount windows r = mount_member r.supplement >>= λ s. some (
    append_text
      (codes "DeviceType: "
        ++ windows.render_device_type (mount_volume_parameters r.parameters).device_type)
      (labelled_if s.captured_volume_name (codes "VolumeName: ") (extract s.volume_name))
    ++ labelled_if s.captured_file_system_type (codes ", FileSystemType: ")
        (windows.render_file_system_type s.file_system_type))
