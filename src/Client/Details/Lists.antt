-- ===== src/Client/Details/Lists.antt =====
-- MiniMonClient/src/trace/details: flush.cpp, ea.cpp, quota.cpp and directory.cpp.
use minifilter_monitor.Common.{
  ℕ, List, [], ◌∷◌, ◌++◌, ◌||◌, flatten, Option, some, codes, is_empty, if◌then◌else◌,
}
use minifilter_monitor.Protocol.{RecordData}
use minifilter_monitor.Protocol.Parameters.Requests.{query_ea_parameters, set_ea_parameters}
use minifilter_monitor.Protocol.Parameters.Callbacks.{query_quota_parameters, set_quota_parameters}
use minifilter_monitor.Client.Number.{to_wstring}
use minifilter_monitor.Client.Names.Payloads.{render_query_flags, render_flush_flags}
use minifilter_monitor.Client.Entries.Kinds.{
  render_eas_payload, render_ea_names_payload, render_sids_payload, render_quotas_payload,
}
use minifilter_monitor.Client.Windows.{Windows}
use minifilter_monitor.Client.Details.Members.{
  extract_payload, query_ea_member, set_ea_member, query_quota_member, set_quota_member,
}
use minifilter_monitor.Client.Details.Requests.{append_text, labelled_if, has_bit, nonzero, ◌>>=◌}

unfoldable pub render_flush : RecordData → List ℕ
unfolding render_flush_flags
render_flush r = render_flush_flags r.operation_flags

-- RenderEaList and RenderSidList: a text that is empty has no label.
unfoldable pub render_list : List ℕ → List ℕ → List ℕ
render_list label text = if is_empty text then [] else label ++ text

-- ea::RenderQuery.
unfoldable pub render_query_ea : RecordData → Option (List ℕ)
render_query_ea r =
    let p = query_ea_parameters r.parameters in
    let details = flatten (
      codes "Length: "
      ∷ to_wstring p.length
      ∷ codes ", EaListLength: "
      ∷ to_wstring p.ea_list_length
      ∷ labelled_if (has_bit r.operation_flags 4 || nonzero p.ea_index) (codes ", EaIndex: ")
          (to_wstring p.ea_index)
      ∷ labelled_if (nonzero r.operation_flags) (codes ", ") (render_query_flags r.operation_flags)
      ∷ []) in
    do
      s ← query_ea_member r.supplement
      list ← extract_payload s.first
      names ← render_ea_names_payload list
      payload ← extract_payload s.second
      eas ← render_eas_payload payload
      some (append_text (append_text details (render_list (codes "EaList: ") names)) eas)

-- ea::RenderSet.
unfoldable pub render_set_ea : RecordData → Option (List ℕ)
render_set_ea r = do
  s ← set_ea_member r.supplement
  payload ← extract_payload s
  eas ← render_eas_payload payload
  some (append_text (codes "Length: " ++ to_wstring (set_ea_parameters r.parameters).length) eas)

-- quota::RenderQuery.
unfoldable pub render_query_quota : Windows → RecordData → Option (List ℕ)
render_query_quota windows r =
    let p = query_quota_parameters r.parameters in
    let details = flatten (
      codes "Length: "
      ∷ to_wstring p.length
      ∷ codes ", SidListLength: "
      ∷ to_wstring p.sid_list_length
      ∷ labelled_if (nonzero r.operation_flags) (codes ", ") (render_query_flags r.operation_flags)
      ∷ []) in
    do
      s ← query_quota_member r.supplement
      list ← extract_payload s.first
      sids ← render_sids_payload windows list
      payload ← extract_payload s.second
      quotas ← render_quotas_payload windows payload
      some (append_text (append_text details (render_list (codes "SidList: ") sids)) quotas)

-- quota::RenderSet.
unfoldable pub render_set_quota : Windows → RecordData → Option (List ℕ)
render_set_quota windows r = do
  s ← set_quota_member r.supplement
  payload ← extract_payload s
  quotas ← render_quotas_payload windows payload
  some (
      append_text (codes "Length: " ++ to_wstring (set_quota_parameters r.parameters).length)
        quotas)
