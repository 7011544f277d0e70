-- ===== src/Client/Details/Payloads.antt =====
-- MiniMonClient/src/trace/details: the frames of info.cpp, filesystem.cpp and deviceio.cpp.
-- The text of a payload by its information class or its control code is an argument.
use minifilter_monitor.Common.{
  ℕ, not, List, [], ◌∷◌, ◌++◌, ◌==◌, ◌&&◌, flatten, Option, some, codes, if◌then◌else◌,
}
use minifilter_monitor.Protocol.{RecordData}
use minifilter_monitor.Protocol.Supplements.{Payload, NamedSupplement, PairSupplement}
use minifilter_monitor.Protocol.Parameters.Requests.{
  query_file_information_parameters, set_file_information_parameters, SetFileInformationParameters,
}
use minifilter_monitor.Protocol.Parameters.Callbacks.{
  file_system_control_parameters, device_io_control_parameters,
}
use minifilter_monitor.Protocol.Parameters.FastIo.{query_open_parameters}
use minifilter_monitor.Client.Number.{to_wstring}
use minifilter_monitor.Client.Names.Information.{render_file_info_class, render_info_flags}
use minifilter_monitor.Client.Names.Devices.{render_device_io_flags, render_verify_volume_flags}
use minifilter_monitor.Client.Details.Members.{
  query_info_member, set_info_member, fs_control_member, device_io_control_member,
}
use minifilter_monitor.Client.Details.Requests.{append_text, labelled_if, nonzero, ◌>>=◌}

-- RenderPayload, RenderInput, RenderOutput and the switch of info::RenderSet, which finds the texts of
-- the parameters, the payload and the target, or does not end, or reads outside the payload (`none`); and
-- the names of control codes, constants of the SDK.
pub record PayloadTexts : Type 0 where
  pub query_info : ℕ → Payload → Option (List ℕ)
  pub set_info : SetFileInformationParameters → NamedSupplement → Option (List ℕ × List ℕ × List ℕ)
  pub fs_input : ℕ → ℕ → PairSupplement → Option (List ℕ)
  pub fs_output : ℕ → PairSupplement → Option (List ℕ)
  pub device_input : ℕ → PairSupplement → Option (List ℕ)
  pub device_output : ℕ → PairSupplement → Option (List ℕ)
  pub fs_control_code : ℕ → List ℕ
  pub io_control_code : ℕ → List ℕ

-- RenderParameters of info.cpp and the flags.
unfoldable pub info_frame : ℕ → ℕ → ℕ → List ℕ
unfolding render_file_info_class render_info_flags to_wstring
info_frame info_class size flags = flatten (
    codes "Class: "
    ∷ render_file_info_class info_class
    ∷ codes ", Length: "
    ∷ to_wstring size
    ∷ labelled_if (nonzero flags) (codes ", ") (render_info_flags info_class flags)
    ∷ [])

-- Three texts that are appended unless they are empty.
unfoldable pub append_three : List ℕ → List ℕ × List ℕ × List ℕ → List ℕ
unfolding append_text
append_three details (parameters, payload, target) =
    append_text (append_text (append_text details parameters) payload) target

-- RenderParameters of filesystem.cpp and deviceio.cpp, and the flags.
unfoldable pub control_frame : List ℕ → ℕ → ℕ → ℕ → List ℕ
unfolding render_device_io_flags to_wstring
control_frame code input_size output_size flags = flatten (
    codes "Control: "
    ∷ code
    ∷ codes ", InputBufferLength: "
    ∷ to_wstring input_size
    ∷ codes ", OutputBufferLength: "
    ∷ to_wstring output_size
    ∷ labelled_if (nonzero flags) (codes ", ") (render_device_io_flags flags)
    ∷ [])

module _ (texts : PayloadTexts) where
  -- info::RenderQuery.
  unfoldable pub render_query_info : RecordData → Option (List ℕ)
  render_query_info r =
      let p = query_file_information_parameters r.parameters in
      do
        s ← query_info_member r.supplement
        text ← texts.query_info p.file_information_class s
        some (append_text (info_frame p.file_information_class p.length r.operation_flags) text)

  -- info::RenderSet.
  unfoldable pub render_set_info : RecordData → Option (List ℕ)
  render_set_info r =
      let p = set_file_information_parameters r.parameters in
      do
        s ← set_info_member r.supplement
        three ← texts.set_info p s
        some (append_three (info_frame p.file_information_class p.length r.operation_flags) three)

  -- info::RenderQueryOpen.
  unfoldable pub render_query_open : RecordData → Option (List ℕ)
  render_query_open r =
      let info_class = (query_open_parameters r.parameters).file_information_class in
      do
        s ← query_info_member r.supplement
        text ← texts.query_info info_class s
        some (append_text (codes "Class: " ++ render_file_info_class info_class) text)

  -- filesystem::Render behind the minor function.
  unfoldable pub render_fs_request : RecordData → Option (List ℕ)
  render_fs_request r =
      let p = file_system_control_parameters r.parameters in
      let frame =
        control_frame (texts.fs_control_code p.fs_control_code) p.input_buffer_length
          p.output_buffer_length r.operation_flags in
      do
        s ← fs_control_member r.supplement
        input ← texts.fs_input p.fs_control_code p.input_buffer_length s
        output ← texts.fs_output p.fs_control_code s
        some (append_text (append_text frame input) output)

  -- filesystem::Render: IRP_MN_VERIFY_VOLUME is 2, IRP_MN_USER_FS_REQUEST 0 and IRP_MN_KERNEL_CALL 4.
  unfoldable pub render_filesystem : RecordData → Option (List ℕ)
  render_filesystem r =
      if r.callback_minor_id == 2
      then some (render_verify_volume_flags r.operation_flags)
      else if not (r.callback_minor_id == 0) && not (r.callback_minor_id == 4)
      then some []
      else render_fs_request r

  -- deviceio::Render.
  unfoldable pub render_device_io : RecordData → Option (List ℕ)
  render_device_io r =
      let p = device_io_control_parameters r.parameters in
      let frame =
        control_frame (texts.io_control_code p.io_control_code) p.input_buffer_length
          p.output_buffer_length r.operation_flags in
      do
        s ← device_io_control_member r.supplement
        input ← texts.device_input p.io_control_code s
        output ← texts.device_output p.io_control_code s
        some (append_text (append_text frame input) output)
