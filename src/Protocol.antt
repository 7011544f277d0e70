-- ===== src/Protocol.antt =====
-- inc/protocol.h: the records that the driver writes and the client reads. An array is the list of
-- its cells; a word is a number below its power of two. A word of CAPTURED and TRUNCATED bits is a
-- record with one Bool for each bit, so `word |= BIT` is an update of one field.
pub mod Supplements
pub mod Parameters
use minifilter_monitor.Common.{ℕ, Bool, false, List, replicate}
use Supplements.{Supplement, zeroed}

pub record Version : Type 0 where
  pub major : ℕ
  pub minor : ℕ
  pub patch : ℕ

abbrev pub minimon_version : Version
minimon_version = record { major = 0; minor = 1; patch = 0 }

-- The 48 bytes of `FltParameters`, seen as the six words of its member `others`.
pub record FltParameters : Type 0 where
  pub argument1 : ℕ
  pub argument2 : ℕ
  pub argument3 : ℕ
  pub argument4 : ℕ
  pub argument5 : ℕ
  pub argument6 : ℕ

abbrev pub stack_trace_frame_count : ℕ
stack_trace_frame_count = 8

abbrev pub stack_frame_name_wchar_count : ℕ
stack_frame_name_wchar_count = 32

abbrev pub name_wchar_count : ℕ
name_wchar_count = 512

abbrev pub altitude_wchar_count : ℕ
altitude_wchar_count = 16

pub record StackFrame : Type 0 where
  pub module_name : List ℕ
  pub offset : ℕ

pub record RecordData : Type 0 where
  pub originating_time : ℕ
  pub completion_time : ℕ
  pub device_object : ℕ
  pub file_object : ℕ
  pub transaction : ℕ
  pub process_id : ℕ
  pub thread_id : ℕ
  pub callback_data : ℕ
  pub top_level_irp : ℕ
  pub information : ℕ
  pub status : ℕ
  pub irp_flags : ℕ
  pub flags : ℕ
  pub reparse_tag : ℕ
  pub callback_major_id : ℕ
  pub callback_minor_id : ℕ
  pub operation_flags : ℕ
  pub truncated_name : Bool
  pub truncated_altitude : Bool
  pub requestor_mode : ℕ
  pub io_priority_hint : ℕ
  pub pre_op_irql : ℕ
  pub post_op_irql : ℕ
  pub transaction_notify : ℕ
  pub transaction_sequence : ℕ
  pub parameters : FltParameters
  pub stack_frame_count : ℕ
  pub stack_trace : List StackFrame
  pub name : List ℕ
  pub altitude : List ℕ
  pub supplement : Supplement

pub record Record : Type 0 where
  pub sequence_number : ℕ
  pub dropped_records : ℕ
  pub record_data : RecordData

-- The sizes that the header's static_asserts pin, in bytes.
abbrev pub record_size : ℕ
record_size = 2920

abbrev pub version_size : ℕ
version_size = 6

abbrev pub command_message_size : ℕ
command_message_size = 8

-- What RtlZeroMemory leaves in a `RecordData`.
unfoldable pub zero_record_data : RecordData
zero_record_data = record {
  originating_time = 0;
  completion_time = 0;
  device_object = 0;
  file_object = 0;
  transaction = 0;
  process_id = 0;
  thread_id = 0;
  callback_data = 0;
  top_level_irp = 0;
  information = 0;
  status = 0;
  irp_flags = 0;
  flags = 0;
  reparse_tag = 0;
  callback_major_id = 0;
  callback_minor_id = 0;
  operation_flags = 0;
  truncated_name = false;
  truncated_altitude = false;
  requestor_mode = 0;
  io_priority_hint = 0;
  pre_op_irql = 0;
  post_op_irql = 0;
  transaction_notify = 0;
  transaction_sequence = 0;
  parameters = record {
    argument1 = 0;
    argument2 = 0;
    argument3 = 0;
    argument4 = 0;
    argument5 = 0;
    argument6 = 0;
  };
  stack_frame_count = 0;
  stack_trace =
      replicate stack_trace_frame_count
        (record { module_name = replicate stack_frame_name_wchar_count 0; offset = 0 });
  name = replicate name_wchar_count 0;
  altitude = replicate altitude_wchar_count 0;
  supplement = zeroed;
}

abbrev pub zero_record : Record
zero_record = record { sequence_number = 0; dropped_records = 0; record_data = zero_record_data }
