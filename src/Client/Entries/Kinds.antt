-- ===== src/Client/Entries/Kinds.antt =====
-- The bodies of the entry loops: extended attributes (eas.cpp, details/ea.cpp), quotas and their
-- security identifiers (details/quota.cpp), streams (details/info.cpp), and files and changes of a
-- directory (details/directory.cpp), under MiniMonClient/src/trace.
pub mod Laws
mod Tests
use minifilter_monitor.Common.{
  ℕ, ◌+◌, ◌-◌, List, [], ◌∷◌, ◌++◌, ◌==◌, ltb, length, Option, none, some, codes, if◌then◌else◌,
}
use minifilter_monitor.Client.Number.{to_wstring, to_wstring_signed}
use minifilter_monitor.Client.Names.Payloads.{render_ea_flags}
use minifilter_monitor.Client.Payload.{
  read_header, member, subspan, subspan_of, render_name, render_ascii_name, render_bytes_at,
}
use minifilter_monitor.Client.Entries.{Entry, render_entries}
use minifilter_monitor.Client.Windows.{Windows}

-- if (!ReadHeader(payload, entry, size, offset)) break;
unfoldable pub after_header : List ℕ → ℕ → ℕ → (List ℕ → Entry) → Entry
unfolding read_header
after_header payload size offset f = elim (read_header payload size offset) [
  | none ↦ Entry.stop
  | some header ↦ f header
]

-- A use of payload.subspan(offset).
unfoldable pub with_rest : List ℕ → ℕ → (List ℕ → Entry) → Entry
unfolding subspan
with_rest payload offset f = elim (subspan payload offset) [
  | none ↦ Entry.undefined
  | some rest ↦ f rest
]

-- The check of SidLength and payload.subspan(offset, count).
unfoldable pub with_counted : List ℕ → ℕ → ℕ → (List ℕ → Entry) → Entry
unfolding subspan_of
with_counted payload offset count f =
    if ltb (length payload - offset) count
    then Entry.stop
    else elim (subspan_of payload offset count) [ none ↦ Entry.undefined | some part ↦ f part ]

-- RenderEasPayload: FILE_FULL_EA_INFORMATION, with the name at 8.
unfoldable pub ea_text : List ℕ → ℕ → ℕ → List ℕ → List ℕ → List ℕ
unfolding to_wstring render_ascii_name render_bytes_at member render_ea_flags
ea_text payload offset index header name_data =
    let flags = member header 4 1 in
    let name_length = member header 5 1 in
    let value_length = member header 6 2 in
    to_wstring index
    ++ (codes ": EaName: "
        ++ (render_ascii_name name_data name_length
            ++ (codes ", EaValueLength: "
                ++ (to_wstring value_length
                    ++ ((if value_length == 0
                          then []
                          else codes ", EaValue: "
                            ++ render_bytes_at payload (offset + 8 + name_length + 1) value_length)
                        ++ ((if flags == 0 then [] else codes ", Flags: " ++ render_ea_flags flags)
                            ++ codes ", "))))))

unfoldable pub ea_entry : List ℕ → ℕ → ℕ → Entry
unfolding after_header with_rest ea_text member
ea_entry payload offset index = after_header payload 8 offset λ header.
    with_rest payload (offset + 8)
      λ name_data. Entry.entry (ea_text payload offset index header name_data) (member header 0 4)

unfoldable pub render_eas_payload : List ℕ → Option (List ℕ)
render_eas_payload payload = render_entries ea_entry 2 payload

-- RenderEaNamesPayload: FILE_GET_EA_INFORMATION, with the name at 5.
unfoldable pub ea_name_entry : List ℕ → ℕ → ℕ → Entry
unfolding after_header with_rest member render_ascii_name
ea_name_entry payload offset index = after_header payload 5 offset λ header.
    with_rest payload (offset + 5) λ name_data.
      Entry.entry (render_ascii_name name_data (member header 4 1) ++ codes "|") (member header 0 4)

unfoldable pub render_ea_names_payload : List ℕ → Option (List ℕ)
render_ea_names_payload payload = render_entries ea_name_entry 1 payload

-- RenderStreamsPayload: FILE_STREAM_INFORMATION, with the name at 24.
unfoldable pub stream_entry : List ℕ → ℕ → ℕ → Entry
unfolding after_header with_rest member render_name to_wstring_signed
stream_entry payload offset index = after_header payload 24 offset λ header.
    with_rest payload (offset + 24) λ name_data.
      Entry.entry
        (codes "StreamName: "
          ++ (render_name name_data (member header 4 4)
              ++ (codes ", StreamSize: "
                  ++ (to_wstring_signed (member header 8 8)
                      ++ (codes ", StreamAllocationSize: "
                          ++ (to_wstring_signed (member header 16 8) ++ codes ", "))))))
        (member header 0 4)

unfoldable pub render_streams_payload : List ℕ → Option (List ℕ)
render_streams_payload payload = render_entries stream_entry 2 payload

-- Where a directory entry has its name, and how long the field FileNameLength is.
pub record Layout : Type 0 where
  pub name_length_offset : ℕ
  pub name_length_width : ℕ
  pub name_offset : ℕ

-- RenderEntriesPayload.
unfoldable pub directory_entry : Layout → List ℕ → ℕ → ℕ → Entry
unfolding after_header with_rest member render_name to_wstring
directory_entry layout payload offset index =
    after_header payload layout.name_offset offset λ header.
      with_rest payload (offset + layout.name_offset) λ name_data.
        Entry.entry
          (to_wstring index
            ++ (codes ": "
                ++ (render_name name_data
                      (member header layout.name_length_offset layout.name_length_width)
                    ++ codes ", ")))
          (member header 0 4)

unfoldable pub render_entries_payload : Layout → List ℕ → Option (List ℕ)
render_entries_payload layout payload = render_entries (directory_entry layout) 2 payload

module _ (windows : Windows) where
  -- RenderChangesPayload.
  unfoldable pub change_entry : Layout → List ℕ → ℕ → ℕ → Entry
  unfolding after_header with_rest member render_name to_wstring
  change_entry layout payload offset index =
      after_header payload layout.name_offset offset λ header.
        with_rest payload (offset + layout.name_offset) λ name_data.
          Entry.entry
            (to_wstring index
              ++ (codes ": Action: "
                  ++ (windows.render_file_action (member header 4 4)
                      ++ (codes ", FileName: "
                          ++ (render_name name_data
                                (member header layout.name_length_offset layout.name_length_width)
                              ++ codes ", ")))))
            (member header 0 4)

  unfoldable pub render_changes_payload : Layout → List ℕ → Option (List ℕ)
  render_changes_payload layout payload = render_entries (change_entry layout) 2 payload

  -- RenderSidsPayload: FILE_GET_QUOTA_INFORMATION, with the identifier at 8.
  unfoldable pub sid_entry : List ℕ → ℕ → ℕ → Entry
  unfolding after_header with_counted member
  sid_entry payload offset index = after_header payload 8 offset λ header.
      with_counted payload (offset + 8) (member header 4 4)
        λ sid. Entry.entry (windows.render_sid sid ++ codes "|") (member header 0 4)

  unfoldable pub render_sids_payload : List ℕ → Option (List ℕ)
  render_sids_payload payload = render_entries sid_entry 1 payload

  -- RenderQuotasPayload: FILE_QUOTA_INFORMATION, with the identifier at 40.
  unfoldable pub quota_text : ℕ → List ℕ → List ℕ → List ℕ
  unfolding member to_wstring to_wstring_signed
  quota_text index header sid =
      to_wstring index
      ++ (codes ": Sid: "
          ++ (windows.render_sid sid
              ++ ((if member header 8 8 == 0
                    then []
                    else codes ", ChangeTime: " ++ windows.render_time (member header 8 8))
                  ++ (codes ", QuotaUsed: "
                      ++ (to_wstring_signed (member header 16 8)
                          ++ (codes ", QuotaThreshold: "
                              ++ (to_wstring_signed (member header 24 8)
                                  ++ (codes ", QuotaLimit: "
                                      ++ (to_wstring_signed (member header 32 8)
                                          ++ codes ", ")))))))))

  unfoldable pub quota_entry : List ℕ → ℕ → ℕ → Entry
  unfolding after_header with_counted member quota_text
  quota_entry payload offset index = after_header payload 40 offset λ header.
      with_counted payload (offset + 40) (member header 4 4)
        λ sid. Entry.entry (quota_text index header sid) (member header 0 4)

  unfoldable pub render_quotas_payload : List ℕ → Option (List ℕ)
  render_quotas_payload payload = render_entries quota_entry 2 payload
