-- ===== src/Protocol/Parameters/FastIo.antt =====
-- inc/protocol.h: the parameters of the fast I/O requests and of a mount.
use minifilter_monitor.Common.{ℕ, ◌%◌, ◌^◌}
use minifilter_monitor.Protocol.{FltParameters}

pub record QueryOpenParameters : Type 0 where
  pub irp : ℕ
  pub file_information : ℕ
  pub length : ℕ
  pub file_information_class : ℕ

unfoldable pub query_open_parameters : FltParameters → QueryOpenParameters
query_open_parameters p = record {
  irp = p.argument1;
  file_information = p.argument2;
  length = p.argument3;
  file_information_class = p.argument4 % 2 ^ 32;
}

pub record FastIoCheckIfPossibleParameters : Type 0 where
  pub file_offset : ℕ
  pub length : ℕ
  pub lock_key : ℕ
  pub check_for_read_operation : ℕ

unfoldable pub fast_io_check_if_possible_parameters :
    FltParameters → FastIoCheckIfPossibleParameters
fast_io_check_if_possible_parameters p = record {
  file_offset = p.argument1;
  length = p.argument2 % 2 ^ 32;
  lock_key = p.argument3 % 2 ^ 32;
  check_for_read_operation = p.argument4 % 2 ^ 8;
}

pub record NetworkQueryOpenParameters : Type 0 where
  pub irp : ℕ
  pub network_information : ℕ

unfoldable pub network_query_open_parameters : FltParameters → NetworkQueryOpenParameters
network_query_open_parameters p = record { irp = p.argument1; network_information = p.argument2 }

pub record MdlReadWriteParameters : Type 0 where
  pub file_offset : ℕ
  pub length : ℕ
  pub key : ℕ
  pub mdl_chain : ℕ

unfoldable pub mdl_read_write_parameters : FltParameters → MdlReadWriteParameters
mdl_read_write_parameters p = record {
  file_offset = p.argument1;
  length = p.argument2 % 2 ^ 32;
  key = p.argument3 % 2 ^ 32;
  mdl_chain = p.argument4;
}

pub record MdlReadCompleteParameters : Type 0 where
  pub mdl_chain : ℕ

unfoldable pub mdl_read_complete_parameters : FltParameters → MdlReadCompleteParameters
mdl_read_complete_parameters p = record { mdl_chain = p.argument1 }

pub record MdlWriteCompleteParameters : Type 0 where
  pub file_offset : ℕ
  pub mdl_chain : ℕ

unfoldable pub mdl_write_complete_parameters : FltParameters → MdlWriteCompleteParameters
mdl_write_complete_parameters p = record { file_offset = p.argument1; mdl_chain = p.argument2 }

pub record MountVolumeParameters : Type 0 where
  pub device_type : ℕ

unfoldable pub mount_volume_parameters : FltParameters → MountVolumeParameters
mount_volume_parameters p = record { device_type = p.argument1 % 2 ^ 32 }
