-- ===== src/Client/Details/Requests.antt =====
-- MiniMonClient/src/trace/details: create.cpp, readwrite.cpp, flush.cpp, ea.cpp and quota.cpp.
use minifilter_monitor.Common.{
  ℕ, ◌-◌, ◌/◌, ◌%◌, ◌^◌, Bool, not, List, [], ◌∷◌, ◌++◌, ◌==◌, ◌&&◌, ◌||◌, ltb, take, length,
  flatten, Option, none, some, codes, is_empty, if◌then◌else◌,
}
use minifilter_monitor.Protocol.{RecordData}
use minifilter_monitor.Protocol.Supplements.{Payload, CreateSupplement}
use minifilter_monitor.Protocol.Parameters.Requests.{
  CreateParameters, create_parameters, read_write_parameters,
}
use minifilter_monitor.Protocol.Parameters.FastIo.{
  mdl_read_write_parameters, mdl_read_complete_parameters, mdl_write_complete_parameters,
}
use minifilter_monitor.Client.Number.{to_wstring, to_wstring_signed, prefixed_hex}
use minifilter_monitor.Client.Text.{extract, mark_truncated}
use minifilter_monitor.Client.Names.Operations.{render_irp_flags}
use minifilter_monitor.Client.Names.Creates.{
  render_create_disposition, render_create_options, render_create_flags, render_open_result,
  render_read_write_flags,
}
use minifilter_monitor.Client.Payload.Values.{render_byte_offset, render_bytes}
use minifilter_monitor.Client.Entries.Kinds.{render_eas_payload}
use minifilter_monitor.Client.Windows.{Windows}
use minifilter_monitor.Client.Details.Members.{extract_payload, create_member, read_write_member}

-- if (!text.empty()) { details += L", "; details += text; }
unfoldable pub append_text : List ℕ → List ℕ → List ℕ
append_text details text = if is_empty text then details else details ++ (codes ", " ++ text)

-- A label and a text, if the condition holds.
abbrev pub labelled_if : Bool → List ℕ → List ℕ → List ℕ
labelled_if condition label text = if condition then label ++ text else []

-- flags & bit, where the bit is a power of two.
abbrev pub has_bit : ℕ → ℕ → Bool
has_bit flags bit = not (flags / bit % 2 == 0)

abbrev pub nonzero : ℕ → Bool
nonzero n = not (n == 0)

infixl 5 ◌>>=◌
abbrev pub ◌>>=◌ {ℓ κ} : {A : Type ℓ} {B : Type κ} → Option A → (A → Option B) → Option B
none >>= f = none
some a >>= f = f a

-- details without the last ", " or "|".
abbrev pub without_last : ℕ → List ℕ → List ℕ
without_last n text = if is_empty text then text else take (length text - n) text

-- RenderParameters of create.cpp.
unfoldable pub render_create_parameters : Windows → CreateParameters → List ℕ
unfolding to_wstring_signed render_create_disposition render_create_options
render_create_parameters windows p =
    let disposition = p.options / 2 ^ 24 in
    let create_options = p.options % 2 ^ 24 in
    flatten (
      codes "Disposition: "
      ∷ render_create_disposition disposition
      ∷ labelled_if (nonzero create_options) (codes ", Options: ")
          (render_create_options create_options)
      ∷ codes ", Attributes: "
      ∷ windows.render_file_attributes p.file_attributes
      ∷ codes ", ShareMode: "
      ∷ windows.render_share_access p.share_access
      ∷ codes ", AllocationSize: "
      ∷ (if disposition == 1 then codes "n/a" else to_wstring_signed p.allocation_size)
      ∷ [])

unfoldable pub render_ecp_text : CreateSupplement → List ℕ
unfolding extract mark_truncated
render_ecp_text s =
    let ecp_text = extract s.ecp_text in
    if is_empty ecp_text && not s.truncated_ecp_text
    then []
    else mark_truncated ecp_text s.truncated_ecp_text

-- create::Render behind the supplement and the text of its attributes.
unfoldable pub create_text : Windows → RecordData → CreateSupplement → List ℕ → List ℕ
unfolding create_parameters render_create_parameters render_create_flags render_open_result
    render_ecp_text append_text to_wstring
create_text windows r s ea_buffer_text =
    let p = create_parameters r.parameters in
    let details = flatten (
      (if s.captured_desired_access
        then codes "Desired Access: "
          ++ (windows.render_desired_access s.desired_access ++ codes ", ")
        else [])
      ∷ render_create_parameters windows p
      ∷ labelled_if (nonzero r.operation_flags) (codes ", ") (render_create_flags r.operation_flags)
      ∷ labelled_if s.captured_impersonated_sid (codes ", Impersonating: ")
          (windows.render_sid s.impersonated_sid)
      ∷ labelled_if (r.status == 0 || r.information == 4 || r.information == 5)
          (codes ", OpenResult: ") (render_open_result r.information)
      ∷ []) in
    append_text
      (append_text details (render_ecp_text s)
        ++ labelled_if (nonzero p.ea_length) (codes ", EaLength: ") (to_wstring p.ea_length))
      ea_buffer_text

unfoldable pub render_create : Windows → RecordData → Option (List ℕ)
render_create windows r = do
  s ← create_member r.supplement
  buffer ← extract_payload s.ea_buffer
  eas ← render_eas_payload buffer
  some (create_text windows r s eas)

-- RenderWriteCompleteParameters and RenderReadCompleteParameters of readwrite.cpp.
unfoldable pub render_write_complete_parameters : ℕ → ℕ → List ℕ
unfolding render_byte_offset prefixed_hex
render_write_complete_parameters offset mdl =
    codes "Offset: "
    ++ (render_byte_offset offset ++ labelled_if (nonzero mdl) (codes ", Mdl: ") (prefixed_hex mdl))

unfoldable pub render_read_complete_parameters : ℕ → List ℕ
unfolding prefixed_hex
render_read_complete_parameters mdl = labelled_if (nonzero mdl) (codes "Mdl: ") (prefixed_hex mdl)

-- RenderParameters of readwrite.cpp.
unfoldable pub render_read_write_parameters : ℕ → ℕ → List ℕ
unfolding render_byte_offset to_wstring
render_read_write_parameters offset size =
    codes "Offset: " ++ (render_byte_offset offset ++ (codes ", Length: " ++ to_wstring size))

unfoldable pub render_io_flags : RecordData → List ℕ
unfolding render_irp_flags render_read_write_flags
render_io_flags r = without_last 1 (
    (if nonzero r.irp_flags then render_irp_flags r.irp_flags ++ codes "|" else [])
    ++ (if nonzero r.operation_flags
        then render_read_write_flags r.operation_flags ++ codes "|"
        else []))

-- RenderPayload of readwrite.cpp.
unfoldable pub render_read_write_payload : Payload → List ℕ → List ℕ
unfolding render_bytes
render_read_write_payload s bytes =
    if s.captured then codes "Data: " ++ render_bytes bytes s.truncated else []

-- RenderCopy; a status that is not negative has the highest of its 32 bits clear.
unfoldable pub render_copy : RecordData → Option (List ℕ)
render_copy r =
    let p = read_write_parameters r.parameters in
    if has_bit r.callback_minor_id 4
    then some (
        if has_bit r.irp_flags 0x200 || nonzero p.byte_offset
        then render_write_complete_parameters p.byte_offset p.mdl_address
        else render_read_complete_parameters p.mdl_address)
    else read_write_member r.supplement >>= λ s. extract_payload s >>= λ bytes. some (
        append_text
          (append_text
              (render_read_write_parameters p.byte_offset p.length
                ++ labelled_if (has_bit r.operation_flags 1 || nonzero p.key) (codes ", Key: ")
                    (prefixed_hex p.key))
              (render_io_flags r)
            ++ labelled_if (ltb r.status (2 ^ 31) && not (r.information == p.length))
                (codes ", Transferred: ") (to_wstring r.information))
          (render_read_write_payload s bytes))

unfoldable pub render_mdl : RecordData → List ℕ
unfolding mdl_read_write_parameters render_read_write_parameters prefixed_hex
render_mdl r =
    let p = mdl_read_write_parameters r.parameters in
    render_read_write_parameters p.file_offset p.length
    ++ labelled_if (nonzero p.key) (codes ", Key: ") (prefixed_hex p.key)

unfoldable pub render_mdl_read_complete : RecordData → List ℕ
unfolding mdl_read_complete_parameters render_read_complete_parameters
render_mdl_read_complete r =
    render_read_complete_parameters (mdl_read_complete_parameters r.parameters).mdl_chain

unfoldable pub render_mdl_write_complete : RecordData → List ℕ
unfolding mdl_write_complete_parameters render_write_complete_parameters
render_mdl_write_complete r =
    let p = mdl_write_complete_parameters r.parameters in
    render_write_complete_parameters p.file_offset p.mdl_chain
