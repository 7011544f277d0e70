-- ===== src/Client/Details/Tests.antt =====
-- MiniMonClient/src/trace/details at concrete records.
use minifilter_monitor.Common.{arith, ◌≡◌, refl, true, false, [], replicate, some, inr, codes, ◌++◌}
use minifilter_monitor.Protocol.{RecordData, zero_record_data}
use minifilter_monitor.Protocol.Supplements.{Supplement}
use minifilter_monitor.Driver.Routing.{irp_mj_read, read_write_populate_read, post_operation_switch}
use minifilter_monitor.Driver.Routing.Tests.{no_parameters}
use minifilter_monitor.Driver.Routing.Union.{member}
use minifilter_monitor.Client.Windows.{nameless}
use minifilter_monitor.Client.Details.{render, render_major}
use minifilter_monitor.Client.Details.Members.{
  written_member, extract_payload, read_write_member, lock_control_member,
}
use minifilter_monitor.Protocol.Parameters.Requests.{read_write_parameters}
use minifilter_monitor.Client.Details.Requests.{
  render_copy, append_text, render_read_write_payload, render_io_flags,
  render_read_write_parameters,
}
use minifilter_monitor.Client.Details.Controls.{render_lock, lock_text}
use minifilter_monitor.Client.Details.Payloads.{PayloadTexts}
use minifilter_monitor.Client.Details.Defined.{HasText}
use minifilter_monitor.Client.Details.Agreement.{render-HasText}

-- A payload's text is its captured bytes.
abbrev byte_texts : PayloadTexts
byte_texts = record {
  query_info = λ info_class payload. some payload.bytes;
  set_info = λ parameters supplement. some ([], supplement.payload.bytes, []);
  fs_input = λ code size supplement. some supplement.first.bytes;
  fs_output = λ code supplement. some supplement.second.bytes;
  device_input = λ code supplement. some supplement.first.bytes;
  device_output = λ code supplement. some supplement.second.bytes;
  fs_control_code = λ code. codes "FSCTL";
  io_control_code = λ code. codes "IOCTL";
}

-- A read of five bytes that the driver captured.
abbrev reading : RecordData
reading = record zero_record_data {
  callback_major_id = 3;
  callback_minor_id = 0;
  supplement = Supplement.read_write (record {
    captured = true;
    truncated = false;
    captured_size = 5;
    bytes = codes "hello" ++ replicate 3 0;
  });
}

-- IRP_MJ_LOCK_CONTROL with a length that was not captured.
abbrev locking : RecordData
locking = record zero_record_data { callback_major_id = 0x11; callback_minor_id = 1 }

render-HasText_example : HasText (render nameless byte_texts reading)
unfolding post_operation_switch written_member member
render-HasText_example =
    render-HasText nameless byte_texts reading irp_mj_read
      (record no_parameters { read_length = 8 }) false refl refl
      (inr (read_write_populate_read, inr refl, refl)) (omega arith)

reading_text :
    render nameless byte_texts reading ≡ some (codes "Offset: 0, Length: 0, Data: 68656C6C6F")
unfolding render zero_record_data render_major render_copy read_write_member append_text
    render_read_write_payload render_io_flags render_read_write_parameters read_write_parameters
    extract_payload
reading_text = refl

locking_text :
    render nameless byte_texts locking
    ≡ some (codes "Exclusive: False, Offset: 0, Fail Immediately: False")
unfolding render zero_record_data render_major render_lock lock_control_member lock_text
locking_text = refl
