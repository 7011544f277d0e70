-- ===== src/Driver/Routing.antt =====
-- MiniMonFlt/src/trace/supplement.cpp: which function fills the record's supplement before and after
-- an operation. The major and minor codes have the names and values of
-- MiniMonClient/src/trace/kernel.h, which copies them from the kernel's headers.
pub mod Union
pub mod Tests
use minifilter_monitor.Common.{
  ℕ, ◌/◌, ◌%◌, ◌*◌, Bool, true, false, not, ◌&&◌, ◌||◌, Option, none, some, ◌==◌, if◌then◌else◌,
}
use minifilter_monitor.Driver.Status.{NtStatus, nt_success, buffer_overflow}

-- The major functions that the two switches tell apart.
pub data MajorFunction : Type 0 where
  irp_mj_create irp_mj_read irp_mj_write irp_mj_query_information : MajorFunction
  irp_mj_set_information irp_mj_query_ea irp_mj_set_ea : MajorFunction
  irp_mj_query_volume_information irp_mj_set_volume_information : MajorFunction
  irp_mj_directory_control irp_mj_file_system_control irp_mj_device_control : MajorFunction
  irp_mj_internal_device_control irp_mj_lock_control irp_mj_query_security : MajorFunction
  irp_mj_set_security irp_mj_system_control irp_mj_query_quota irp_mj_set_quota : MajorFunction
  irp_mj_acquire_for_mod_write irp_mj_volume_mount irp_mj_query_open : MajorFunction
  irp_mj_network_query_open irp_mj_other : MajorFunction

-- The members of Iopb->Parameters that are tested: lengths, and whether a pointer is not null.
pub record Parameters : Type 0 where
  pub read_length : ℕ
  pub write_length : ℕ
  pub set_information_buffer : Bool
  pub query_information_buffer : Bool
  pub ea_list : Bool
  pub query_ea_length : ℕ
  pub set_ea_length : ℕ
  pub set_volume_buffer : Bool
  pub query_volume_buffer : Bool
  pub query_directory_file_name : Bool
  pub query_directory_length : ℕ
  pub notify_directory_length : ℕ
  pub fs_control_input_length : ℕ
  pub fs_control_output_length : ℕ
  pub device_control_input_length : ℕ
  pub device_control_output_length : ℕ
  pub lock_length : Bool
  pub security_descriptor : Bool
  pub query_security_length : ℕ
  pub wmi_data_path : Bool
  pub sid_list : Bool
  pub query_quota_length : ℕ
  pub set_quota_length : ℕ
  pub ending_offset : Bool
  pub resource_to_release : Bool
  pub query_open_information : Bool
  pub network_information : Bool

pub record Iopb : Type 0 where
  pub major_function : MajorFunction
  pub minor_function : ℕ
  pub parameters : Parameters

-- The functions that are called, by namespace and name.
pub data Populate : Type 0 where
  create_populate read_write_populate_write read_write_populate_read : Populate
  info_populate_set info_populate_query info_populate_query_open : Populate
  info_populate_network_query_open ea_populate_ea_list ea_populate_set : Populate
  ea_populate_query volume_populate_set volume_populate_query : Populate
  directory_populate_file_name directory_populate_query directory_populate_notify : Populate
  filesystem_populate_input filesystem_populate_output : Populate
  deviceio_populate_input deviceio_populate_output lock_populate : Populate
  security_populate_set security_populate_query wmi_populate : Populate
  quota_populate_sid_list quota_populate_set quota_populate_query : Populate
  mod_write_populate_ending_offset mod_write_populate_resource mount_populate : Populate

-- MinorFunction & (IRP_MN_MDL | IRP_MN_COMPLETE), the bits 2 and 4.
abbrev pub is_mdl_or_complete : ℕ → Bool
is_mdl_or_complete minor = not (minor / 2 % 4 == 0)

abbrev pub is_query_directory : ℕ → Bool
is_query_directory minor = minor == 1

abbrev pub is_notify_directory : ℕ → Bool
is_notify_directory minor = minor == 2 || minor == 3

abbrev pub is_fs_request : ℕ → Bool
is_fs_request minor = minor == 0 || minor == 4

abbrev pub is_single_lock : ℕ → Bool
is_single_lock minor = minor == 1 || minor == 2

abbrev pub is_registration : ℕ → Bool
is_registration minor = minor == 8 || minor == 11

abbrev pub calls : Bool → Populate → Option Populate
calls condition f = if condition then some f else none

-- The switch of PopulatePreOperation. `has_volume`: pFltObjects->Volume is not null.
unfoldable pub pre_operation_switch : MajorFunction → ℕ → Parameters → Bool → Option Populate
pre_operation_switch irp_mj_create minor p v = some create_populate
pre_operation_switch irp_mj_write minor p v =
    calls (not (is_mdl_or_complete minor) && not (p.write_length == 0)) read_write_populate_write
pre_operation_switch irp_mj_set_information minor p v =
    calls p.set_information_buffer info_populate_set
pre_operation_switch irp_mj_query_ea minor p v = calls p.ea_list ea_populate_ea_list
pre_operation_switch irp_mj_set_ea minor p v = calls (not (p.set_ea_length == 0)) ea_populate_set
pre_operation_switch irp_mj_set_volume_information minor p v =
    calls p.set_volume_buffer volume_populate_set
pre_operation_switch irp_mj_directory_control minor p v =
    calls (is_query_directory minor && p.query_directory_file_name) directory_populate_file_name
pre_operation_switch irp_mj_file_system_control minor p v =
    calls
      (is_fs_request minor
        && (not (p.fs_control_input_length == 0) || not (p.fs_control_output_length == 0)))
      filesystem_populate_input
pre_operation_switch irp_mj_device_control minor p v =
    calls (not (p.device_control_input_length == 0) || not (p.device_control_output_length == 0))
      deviceio_populate_input
pre_operation_switch irp_mj_internal_device_control minor p v =
    calls (not (p.device_control_input_length == 0) || not (p.device_control_output_length == 0))
      deviceio_populate_input
pre_operation_switch irp_mj_lock_control minor p v =
    calls (is_single_lock minor && p.lock_length) lock_populate
pre_operation_switch irp_mj_set_security minor p v =
    calls p.security_descriptor security_populate_set
pre_operation_switch irp_mj_system_control minor p v =
    calls (not (is_registration minor) && p.wmi_data_path) wmi_populate
pre_operation_switch irp_mj_query_quota minor p v = calls p.sid_list quota_populate_sid_list
pre_operation_switch irp_mj_set_quota minor p v =
    calls (not (p.set_quota_length == 0)) quota_populate_set
pre_operation_switch irp_mj_acquire_for_mod_write minor p v =
    calls p.ending_offset mod_write_populate_ending_offset
pre_operation_switch irp_mj_volume_mount minor p v = calls v mount_populate
pre_operation_switch major minor p v = none

unfoldable pub populate_pre_operation : Iopb → Bool → Option Populate
unfolding pre_operation_switch
populate_pre_operation i has_volume =
    pre_operation_switch i.major_function i.minor_function i.parameters has_volume

-- The switch of PopulatePostOperation.
unfoldable pub post_operation_switch : MajorFunction → ℕ → Parameters → Option Populate
post_operation_switch irp_mj_read minor p =
    calls (not (is_mdl_or_complete minor) && not (p.read_length == 0)) read_write_populate_read
post_operation_switch irp_mj_query_information minor p =
    calls p.query_information_buffer info_populate_query
post_operation_switch irp_mj_query_ea minor p =
    calls (not (p.query_ea_length == 0)) ea_populate_query
post_operation_switch irp_mj_query_volume_information minor p =
    calls p.query_volume_buffer volume_populate_query
post_operation_switch irp_mj_directory_control minor p =
    if is_query_directory minor && not (p.query_directory_length == 0)
    then some directory_populate_query
    else calls (is_notify_directory minor && not (p.notify_directory_length == 0))
        directory_populate_notify
post_operation_switch irp_mj_file_system_control minor p =
    calls (is_fs_request minor && not (p.fs_control_output_length == 0)) filesystem_populate_output
post_operation_switch irp_mj_device_control minor p =
    calls (not (p.device_control_output_length == 0)) deviceio_populate_output
post_operation_switch irp_mj_internal_device_control minor p =
    calls (not (p.device_control_output_length == 0)) deviceio_populate_output
post_operation_switch irp_mj_query_security minor p =
    calls (not (p.query_security_length == 0)) security_populate_query
post_operation_switch irp_mj_query_quota minor p =
    calls (not (p.query_quota_length == 0)) quota_populate_query
post_operation_switch irp_mj_acquire_for_mod_write minor p =
    calls p.resource_to_release mod_write_populate_resource
post_operation_switch irp_mj_query_open minor p =
    calls p.query_open_information info_populate_query_open
post_operation_switch irp_mj_network_query_open minor p =
    calls p.network_information info_populate_network_query_open
post_operation_switch major minor p = none

-- Only a success, a warning that NT_SUCCESS accepts or STATUS_BUFFER_OVERFLOW has data.
abbrev pub has_data : NtStatus → Bool
has_data buffer_overflow = true
has_data status = nt_success status

unfoldable pub populate_post_operation : Iopb → NtStatus → Option Populate
unfolding post_operation_switch
populate_post_operation i status =
    if not (has_data status)
    then none
    else post_operation_switch i.major_function i.minor_function i.parameters
