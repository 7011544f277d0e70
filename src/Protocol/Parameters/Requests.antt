-- ===== src/Protocol/Parameters/Requests.antt =====
-- inc/protocol.h: the views of FltParameters for requests of files and volumes, as the
-- members that lie in its six words of 64 bits, at the offsets that the static assertions pin.
use minifilter_monitor.Common.{ℕ, ◌/◌, ◌%◌, ◌^◌}
use minifilter_monitor.Protocol.{FltParameters}

pub record CreateParameters : Type 0 where
  pub security_context : ℕ
  pub options : ℕ
  pub file_attributes : ℕ
  pub share_access : ℕ
  pub ea_length : ℕ
  pub ea_buffer : ℕ
  pub allocation_size : ℕ

unfoldable pub create_parameters : FltParameters → CreateParameters
create_parameters p = record {
  security_context = p.argument1;
  options = p.argument2 % 2 ^ 32;
  file_attributes = p.argument3 % 2 ^ 16;
  share_access = p.argument3 / 2 ^ 16 % 2 ^ 16;
  ea_length = p.argument4 % 2 ^ 32;
  ea_buffer = p.argument5;
  allocation_size = p.argument6;
}

pub record ReadWriteParameters : Type 0 where
  pub length : ℕ
  pub key : ℕ
  pub byte_offset : ℕ
  pub buffer : ℕ
  pub mdl_address : ℕ

unfoldable pub read_write_parameters : FltParameters → ReadWriteParameters
read_write_parameters p = record {
  length = p.argument1 % 2 ^ 32;
  key = p.argument2 % 2 ^ 32;
  byte_offset = p.argument3;
  buffer = p.argument4;
  mdl_address = p.argument5;
}

pub record QueryFileInformationParameters : Type 0 where
  pub length : ℕ
  pub file_information_class : ℕ
  pub info_buffer : ℕ

unfoldable pub query_file_information_parameters : FltParameters → QueryFileInformationParameters
query_file_information_parameters p = record {
  length = p.argument1 % 2 ^ 32;
  file_information_class = p.argument2 % 2 ^ 32;
  info_buffer = p.argument3;
}

pub record SetFileInformationParameters : Type 0 where
  pub length : ℕ
  pub file_information_class : ℕ
  pub parent_of_target : ℕ
  pub replace_if_exists : ℕ
  pub advance_only : ℕ
  pub cluster_count : ℕ
  pub delete_handle : ℕ
  pub info_buffer : ℕ

unfoldable pub set_file_information_parameters : FltParameters → SetFileInformationParameters
set_file_information_parameters p = record {
  length = p.argument1 % 2 ^ 32;
  file_information_class = p.argument2 % 2 ^ 32;
  parent_of_target = p.argument3;
  replace_if_exists = p.argument4 % 2 ^ 8;
  advance_only = p.argument4 / 2 ^ 8 % 2 ^ 8;
  cluster_count = p.argument4 % 2 ^ 32;
  delete_handle = p.argument4;
  info_buffer = p.argument5;
}

pub record QueryEaParameters : Type 0 where
  pub length : ℕ
  pub ea_list : ℕ
  pub ea_list_length : ℕ
  pub ea_index : ℕ
  pub ea_buffer : ℕ
  pub mdl_address : ℕ

unfoldable pub query_ea_parameters : FltParameters → QueryEaParameters
query_ea_parameters p = record {
  length = p.argument1 % 2 ^ 32;
  ea_list = p.argument2;
  ea_list_length = p.argument3 % 2 ^ 32;
  ea_index = p.argument4 % 2 ^ 32;
  ea_buffer = p.argument5;
  mdl_address = p.argument6;
}

pub record SetEaParameters : Type 0 where
  pub length : ℕ
  pub ea_buffer : ℕ
  pub mdl_address : ℕ

unfoldable pub set_ea_parameters : FltParameters → SetEaParameters
set_ea_parameters p = record {
  length = p.argument1 % 2 ^ 32;
  ea_buffer = p.argument2;
  mdl_address = p.argument3;
}

pub record VolumeInformationParameters : Type 0 where
  pub length : ℕ
  pub fs_information_class : ℕ
  pub volume_buffer : ℕ

unfoldable pub volume_information_parameters : FltParameters → VolumeInformationParameters
volume_information_parameters p = record {
  length = p.argument1 % 2 ^ 32;
  fs_information_class = p.argument2 % 2 ^ 32;
  volume_buffer = p.argument3;
}

pub record QueryDirectoryParameters : Type 0 where
  pub length : ℕ
  pub file_name : ℕ
  pub file_information_class : ℕ
  pub file_index : ℕ
  pub directory_buffer : ℕ
  pub mdl_address : ℕ

unfoldable pub query_directory_parameters : FltParameters → QueryDirectoryParameters
query_directory_parameters p = record {
  length = p.argument1 % 2 ^ 32;
  file_name = p.argument2;
  file_information_class = p.argument3 % 2 ^ 32;
  file_index = p.argument4 % 2 ^ 32;
  directory_buffer = p.argument5;
  mdl_address = p.argument6;
}

pub record NotifyDirectoryParameters : Type 0 where
  pub length : ℕ
  pub completion_filter : ℕ
  pub directory_notify_information_class : ℕ
  pub directory_buffer : ℕ
  pub mdl_address : ℕ

unfoldable pub notify_directory_parameters : FltParameters → NotifyDirectoryParameters
notify_directory_parameters p = record {
  length = p.argument1 % 2 ^ 32;
  completion_filter = p.argument2 % 2 ^ 32;
  directory_notify_information_class = p.argument3 % 2 ^ 32;
  directory_buffer = p.argument5;
  mdl_address = p.argument6;
}
