-- ===== src/Protocol/Supplements.antt =====
-- inc/protocol.h: the supplements, one member of the union for each kind of operation.
use minifilter_monitor.Common.{ℕ, Bool, false, ◌-◌, ◌*◌, ◌/◌, List, replicate}

abbrev pub supplement_size : ℕ
supplement_size = 1104

-- A payload array with its CAPTURED bit, its TRUNCATED bit and its captured size.
pub record Payload : Type 0 where
  pub captured : Bool
  pub truncated : Bool
  pub captured_size : ℕ
  pub bytes : List ℕ

-- A name array with its CAPTURED and its TRUNCATED bit.
pub record Name : Type 0 where
  pub captured : Bool
  pub truncated : Bool
  pub text : List ℕ

abbrev pub zero_payload : ℕ → Payload
zero_payload size = record {
  captured = false;
  truncated = false;
  captured_size = 0;
  bytes = replicate size 0;
}

abbrev pub zero_name : ℕ → Name
zero_name count = record { captured = false; truncated = false; text = replicate count 0 }

abbrev pub create_sid_size : ℕ
create_sid_size = 68

abbrev pub create_ecp_text_wchar_count : ℕ
create_ecp_text_wchar_count = 256

abbrev pub create_ea_buffer_size : ℕ
create_ea_buffer_size = supplement_size - 3 * 4 - create_sid_size - 2 * create_ecp_text_wchar_count

abbrev pub read_write_payload_size : ℕ
read_write_payload_size = 32

-- The size of the one payload that fills the union behind two words: QUERY_INFO, SET_EA,
-- VOLUME_INFO, NOTIFY_DIRECTORY, SECURITY and SET_QUOTA share it.
abbrev pub whole_payload_size : ℕ
whole_payload_size = supplement_size - 2 * 4

abbrev pub name_count : ℕ
name_count = 256

-- SET_INFO and QUERY_DIRECTORY: a payload and a name of 256 characters.
abbrev pub named_payload_size : ℕ
named_payload_size = supplement_size - 2 * 4 - 2 * name_count

abbrev pub query_ea_list_size : ℕ
query_ea_list_size = 264

abbrev pub query_ea_payload_size : ℕ
query_ea_payload_size = supplement_size - 3 * 4 - query_ea_list_size

abbrev pub control_input_payload_size : ℕ
control_input_payload_size = 546

abbrev pub control_output_payload_size : ℕ
control_output_payload_size = supplement_size - 3 * 4 - control_input_payload_size

abbrev pub query_quota_sid_list_size : ℕ
query_quota_sid_list_size = 304

abbrev pub query_quota_payload_size : ℕ
query_quota_payload_size = supplement_size - 3 * 4 - query_quota_sid_list_size

abbrev pub mount_volume_name_wchar_count : ℕ
mount_volume_name_wchar_count = (supplement_size - 2 * 4) / 2

pub record CreateSupplement : Type 0 where
  pub captured_desired_access : Bool
  pub captured_impersonated_sid : Bool
  pub truncated_ecp_text : Bool
  pub desired_access : ℕ
  pub impersonated_sid : List ℕ
  pub ea_buffer : Payload
  pub ecp_text : List ℕ

-- A payload and a name: SetInfoSupplement and QueryDirectorySupplement.
pub record NamedSupplement : Type 0 where
  pub payload : Payload
  pub file_name : Name

-- A list captured before the operation and a payload captured after it: QueryEaSupplement and
-- QueryQuotaSupplement. FsControlSupplement and DeviceIoControlSupplement have input and output.
pub record PairSupplement : Type 0 where
  pub first : Payload
  pub second : Payload

pub record LockControlSupplement : Type 0 where
  pub captured_length : Bool
  pub length : ℕ

pub record WmiSupplement : Type 0 where
  pub captured_guid : Bool
  pub guid : List ℕ

pub record ModWriteSupplement : Type 0 where
  pub captured_ending_offset : Bool
  pub captured_resource : Bool
  pub ending_offset : ℕ
  pub resource : ℕ

pub record MountSupplement : Type 0 where
  pub captured_volume_name : Bool
  pub captured_file_system_type : Bool
  pub file_system_type : ℕ
  pub volume_name : List ℕ

-- The union, with the member last written; `zeroed` is what RtlZeroMemory leaves.
pub data Supplement : Type 0 where
  zeroed : Supplement
  create : CreateSupplement → Supplement
  read_write query_info set_ea volume_info : Payload → Supplement
  notify_directory security set_quota : Payload → Supplement
  set_info query_directory : NamedSupplement → Supplement
  query_ea fs_control device_io_control query_quota : PairSupplement → Supplement
  lock_control : LockControlSupplement → Supplement
  wmi : WmiSupplement → Supplement
  mod_write : ModWriteSupplement → Supplement
  mount : MountSupplement → Supplement
