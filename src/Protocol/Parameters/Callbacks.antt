-- ===== src/Protocol/Parameters/Callbacks.antt =====
-- inc/protocol.h: the views of FltParameters for controls, locks and callbacks of the system, as the
-- members that lie in its six words of 64 bits, at the offsets that the static assertions pin.
use minifilter_monitor.Common.{ℕ, ◌/◌, ◌%◌, ◌^◌}
use minifilter_monitor.Protocol.{FltParameters}

pub record FileSystemControlParameters : Type 0 where
  pub output_buffer_length : ℕ
  pub input_buffer_length : ℕ
  pub fs_control_code : ℕ
  pub input_buffer : ℕ
  pub output_buffer : ℕ
  pub output_mdl_address : ℕ

unfoldable pub file_system_control_parameters : FltParameters → FileSystemControlParameters
file_system_control_parameters p = record {
  output_buffer_length = p.argument1 % 2 ^ 32;
  input_buffer_length = p.argument2 % 2 ^ 32;
  fs_control_code = p.argument3 % 2 ^ 32;
  input_buffer = p.argument4;
  output_buffer = p.argument5;
  output_mdl_address = p.argument6;
}

pub record DeviceIoControlParameters : Type 0 where
  pub output_buffer_length : ℕ
  pub input_buffer_length : ℕ
  pub io_control_code : ℕ
  pub input_buffer : ℕ
  pub output_buffer : ℕ
  pub output_mdl_address : ℕ

unfoldable pub device_io_control_parameters : FltParameters → DeviceIoControlParameters
device_io_control_parameters p = record {
  output_buffer_length = p.argument1 % 2 ^ 32;
  input_buffer_length = p.argument2 % 2 ^ 32;
  io_control_code = p.argument3 % 2 ^ 32;
  input_buffer = p.argument4;
  output_buffer = p.argument5;
  output_mdl_address = p.argument6;
}

pub record LockControlParameters : Type 0 where
  pub length : ℕ
  pub key : ℕ
  pub byte_offset : ℕ
  pub process_id : ℕ
  pub fail_immediately : ℕ
  pub exclusive_lock : ℕ

unfoldable pub lock_control_parameters : FltParameters → LockControlParameters
lock_control_parameters p = record {
  length = p.argument1;
  key = p.argument2 % 2 ^ 32;
  byte_offset = p.argument3;
  process_id = p.argument4;
  fail_immediately = p.argument5 % 2 ^ 8;
  exclusive_lock = p.argument5 / 2 ^ 8 % 2 ^ 8;
}

pub record QuerySecurityParameters : Type 0 where
  pub security_information : ℕ
  pub length : ℕ
  pub security_buffer : ℕ
  pub mdl_address : ℕ

unfoldable pub query_security_parameters : FltParameters → QuerySecurityParameters
query_security_parameters p = record {
  security_information = p.argument1 % 2 ^ 32;
  length = p.argument2 % 2 ^ 32;
  security_buffer = p.argument3;
  mdl_address = p.argument4;
}

pub record SetSecurityParameters : Type 0 where
  pub security_information : ℕ
  pub security_descriptor : ℕ

unfoldable pub set_security_parameters : FltParameters → SetSecurityParameters
set_security_parameters p = record {
  security_information = p.argument1 % 2 ^ 32;
  security_descriptor = p.argument2;
}

pub record WmiParameters : Type 0 where
  pub provider_id : ℕ
  pub data_path : ℕ
  pub buffer_size : ℕ
  pub buffer : ℕ

unfoldable pub wmi_parameters : FltParameters → WmiParameters
wmi_parameters p = record {
  provider_id = p.argument1;
  data_path = p.argument2;
  buffer_size = p.argument3 % 2 ^ 32;
  buffer = p.argument4;
}

pub record QueryQuotaParameters : Type 0 where
  pub length : ℕ
  pub start_sid : ℕ
  pub sid_list : ℕ
  pub sid_list_length : ℕ
  pub quota_buffer : ℕ
  pub mdl_address : ℕ

unfoldable pub query_quota_parameters : FltParameters → QueryQuotaParameters
query_quota_parameters p = record {
  length = p.argument1 % 2 ^ 32;
  start_sid = p.argument2;
  sid_list = p.argument3;
  sid_list_length = p.argument4 % 2 ^ 32;
  quota_buffer = p.argument5;
  mdl_address = p.argument6;
}

pub record SetQuotaParameters : Type 0 where
  pub length : ℕ
  pub quota_buffer : ℕ
  pub mdl_address : ℕ

unfoldable pub set_quota_parameters : FltParameters → SetQuotaParameters
set_quota_parameters p = record {
  length = p.argument1 % 2 ^ 32;
  quota_buffer = p.argument2;
  mdl_address = p.argument3;
}

pub record PnpParameters : Type 0 where
  pub relation_type : ℕ
  pub in_path : ℕ
  pub usage_type : ℕ

unfoldable pub pnp_parameters : FltParameters → PnpParameters
pnp_parameters p = record {
  relation_type = p.argument1 % 2 ^ 32;
  in_path = p.argument1 % 2 ^ 8;
  usage_type = p.argument2 % 2 ^ 32;
}

pub record AcquireForSectionSynchronizationParameters : Type 0 where
  pub sync_type : ℕ
  pub page_protection : ℕ
  pub output_information : ℕ
  pub flags : ℕ
  pub allocation_attributes : ℕ

unfoldable pub acquire_for_section_synchronization_parameters :
    FltParameters → AcquireForSectionSynchronizationParameters
acquire_for_section_synchronization_parameters p = record {
  sync_type = p.argument1 % 2 ^ 32;
  page_protection = p.argument1 / 2 ^ 32 % 2 ^ 32;
  output_information = p.argument2;
  flags = p.argument3 % 2 ^ 32;
  allocation_attributes = p.argument3 / 2 ^ 32 % 2 ^ 32;
}

pub record AcquireForModifiedPageWriterParameters : Type 0 where
  pub ending_offset : ℕ
  pub resource_to_release : ℕ

unfoldable pub acquire_for_modified_page_writer_parameters :
    FltParameters → AcquireForModifiedPageWriterParameters
acquire_for_modified_page_writer_parameters p = record {
  ending_offset = p.argument1;
  resource_to_release = p.argument2;
}

pub record ReleaseForModifiedPageWriterParameters : Type 0 where
  pub resource_to_release : ℕ

unfoldable pub release_for_modified_page_writer_parameters :
    FltParameters → ReleaseForModifiedPageWriterParameters
release_for_modified_page_writer_parameters p = record { resource_to_release = p.argument1 }
