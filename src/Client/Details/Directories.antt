-- ===== src/Client/Details/Directories.antt =====
-- MiniMonClient/src/trace/details/directory.cpp, with the layouts of entries of kernel.h.
use minifilter_monitor.Common.{
  ℕ, Bool, not, List, [], ◌∷◌, ◌++◌, ◌==◌, ◌&&◌, ◌||◌, flatten, Option, none, some, codes, is_empty,
  if◌then◌else◌,
}
use minifilter_monitor.Protocol.{RecordData}
use minifilter_monitor.Protocol.Supplements.{Name}
use minifilter_monitor.Protocol.Parameters.Requests.{
  query_directory_parameters, notify_directory_parameters,
}
use minifilter_monitor.Client.Number.{to_wstring}
use minifilter_monitor.Client.Text.{extract, mark_truncated}
use minifilter_monitor.Client.Names.Information.{render_file_info_class}
use minifilter_monitor.Client.Names.Payloads.{
  render_query_flags, render_notify_flags, render_directory_notify_info_class,
}
use minifilter_monitor.Client.Entries.Kinds.{Layout, render_entries_payload, render_changes_payload}
use minifilter_monitor.Client.Entries.Arrays.{
  render_object_ids_payload, render_reparse_points_payload,
}
use minifilter_monitor.Client.Windows.{Windows}
use minifilter_monitor.Client.Details.Members.{
  extract_payload, query_directory_member, notify_directory_member,
}
use minifilter_monitor.Client.Details.Requests.{append_text, labelled_if, has_bit, nonzero, ◌>>=◌}

unfoldable pub render_file_name : Name → List ℕ
unfolding extract mark_truncated
render_file_name n =
    let file_name = extract n.text in
    if not n.captured || (is_empty file_name && not n.truncated)
    then []
    else codes "Filter: " ++ mark_truncated file_name n.truncated

-- FileNameLength, a word of four bytes at the first offset, and FileName.
abbrev pub layout : ℕ → ℕ → Layout
layout length_offset name_offset = record {
  name_length_offset = length_offset;
  name_length_width = 4;
  name_offset = name_offset;
}

-- The layout of an information class, for the classes whose entries have names.
unfoldable pub entry_layout : ℕ → Option Layout
entry_layout info_class =
    if info_class == 1
    then some (layout 60 64)
    else if info_class == 2
    then some (layout 60 68)
    else if info_class == 3
    then some (layout 60 94)
    else if info_class == 12
    then some (layout 8 12)
    else if info_class == 37
    then some (layout 60 104)
    else if info_class == 38
    then some (layout 60 80)
    else if info_class == 50
    then some (layout 60 92)
    else if info_class == 60
    then some (layout 60 88)
    else if info_class == 63
    then some (layout 60 114)
    else if info_class == 78
    then some (layout 60 80)
    else if info_class == 79
    then some (layout 60 106)
    else if info_class == 80
    then some (layout 60 96)
    else if info_class == 81
    then some (layout 60 122)
    else none

-- The overload of RenderPayload for a query.
unfoldable pub render_query_directory_payload : Windows → ℕ → Bool → List ℕ → Option (List ℕ)
render_query_directory_payload windows info_class truncated payload =
    if info_class == 29
    then render_object_ids_payload payload truncated
    else if info_class == 33
    then render_reparse_points_payload windows payload truncated
    else elim (entry_layout info_class) [
      | none ↦ some []
      | some l ↦ render_entries_payload l payload
    ]

unfoldable pub render_query_directory : Windows → RecordData → Option (List ℕ)
render_query_directory windows r =
    let p = query_directory_parameters r.parameters in
    let details = flatten (
      codes "Class: "
      ∷ render_file_info_class p.file_information_class
      ∷ codes ", Length: "
      ∷ to_wstring p.length
      ∷ labelled_if (has_bit r.operation_flags 4 || nonzero p.file_index) (codes ", FileIndex: ")
          (to_wstring p.file_index)
      ∷ labelled_if (nonzero r.operation_flags) (codes ", ") (render_query_flags r.operation_flags)
      ∷ []) in
    do
      s ← query_directory_member r.supplement
      payload ← extract_payload s.payload
      entries ←
          render_query_directory_payload windows p.file_information_class s.payload.truncated
            payload
      some (append_text (append_text details (render_file_name s.file_name)) entries)

-- The layout of a change: FILE_NOTIFY_FULL_INFORMATION has a length of two bytes.
unfoldable pub change_layout : ℕ → Option Layout
change_layout info_class =
    if info_class == 1
    then some (layout 8 12)
    else if info_class == 2
    then some (layout 80 84)
    else if info_class == 3
    then some (record { name_length_offset = 80; name_length_width = 2; name_offset = 84 })
    else none

-- The overload of RenderPayload for a notification.
unfoldable pub render_notify_directory_payload : Windows → ℕ → List ℕ → Option (List ℕ)
render_notify_directory_payload windows info_class payload = elim (change_layout info_class) [
  | none ↦ some []
  | some l ↦ render_changes_payload windows l payload
]

unfoldable pub render_notify_directory : Windows → RecordData → Option (List ℕ)
render_notify_directory windows r =
    let p = notify_directory_parameters r.parameters in
    let notify_ex = r.callback_minor_id == 3 in
    let info_class = p.directory_notify_information_class in
    let details = flatten (
      (if notify_ex
        then codes "Class: " ++ (render_directory_notify_info_class info_class ++ codes ", ")
        else [])
      ∷ codes "Length: "
      ∷ to_wstring p.length
      ∷ labelled_if (nonzero r.operation_flags) (codes ", ") (render_notify_flags r.operation_flags)
      ∷ labelled_if (nonzero p.completion_filter) (codes ", Filter: ")
          (windows.render_completion_filter p.completion_filter)
      ∷ []) in
    do
      s ← notify_directory_member r.supplement
      payload ← extract_payload s
      changes ←
          render_notify_directory_payload windows (if notify_ex then info_class else 1) payload
      some (append_text details changes)

-- directory::Render.
unfoldable pub render_directory : Windows → RecordData → Option (List ℕ)
render_directory windows r =
    if r.callback_minor_id == 1
    then render_query_directory windows r
    else if r.callback_minor_id == 2 || r.callback_minor_id == 3
    then render_notify_directory windows r
    else some []
