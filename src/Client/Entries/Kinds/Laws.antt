-- ===== src/Client/Entries/Kinds/Laws.antt =====
-- The entry loops of MiniMonClient/src/trace: no kind of entry is read outside the payload.
use minifilter_monitor.Common.{
  ℕ, ◌+◌, ◌≤◌, ◌≡◌, ◌≢◌, List, [], length, some, arith, Option-cases, inl, inr, take, drop,
}
use minifilter_monitor.Client.Payload.{read_header, fits, subspan, subspan_of}
use minifilter_monitor.Client.Entries.{Entry}
use minifilter_monitor.Client.Entries.Walks.{IsSafeBody, IsRendered, render_entries-IsRendered}
use minifilter_monitor.Client.Entries.Kinds.{
  Layout, after_header, with_rest, with_counted, ea_entry, ea_name_entry, stream_entry,
  directory_entry, change_entry, sid_entry, quota_entry, render_eas_payload,
  render_ea_names_payload, render_streams_payload, render_entries_payload, render_changes_payload,
  render_sids_payload, render_quotas_payload,
}
use minifilter_monitor.Client.Windows.{Windows}

header-inside :
    (payload : List ℕ) (size offset : ℕ) (header : List ℕ)
    → read_header payload size offset ≡ some header
    → offset + size ≤ length payload
unfolding read_header fits
header-inside payload size offset header h = ground (arith, h)

with_rest-defined :
    (payload : List ℕ) (offset : ℕ) (f : List ℕ → Entry)
    → offset ≤ length payload
    → ((rest : List ℕ) → f rest ≢ Entry.undefined)
    → with_rest payload offset f ≢ Entry.undefined
unfolding with_rest subspan
with_rest-defined payload offset f inside good = λ h. ground (arith, h, good (drop offset payload))

with_counted-defined :
    (payload : List ℕ) (offset count : ℕ) (f : List ℕ → Entry)
    → offset ≤ length payload
    → ((part : List ℕ) → f part ≢ Entry.undefined)
    → with_counted payload offset count f ≢ Entry.undefined
unfolding with_counted subspan_of
with_counted-defined payload offset count f inside good =
    λ h. ground (arith, h, good (take count (drop offset payload)))

after_header-defined :
    (payload : List ℕ) (size offset : ℕ) (f : List ℕ → Entry)
    → (offset + size ≤ length payload → (header : List ℕ) → f header ≢ Entry.undefined)
    → after_header payload size offset f ≢ Entry.undefined
unfolding after_header
after_header-defined payload size offset f good =
    elim (Option-cases (read_header payload size offset)) [
      | inl cut ↦ λ h. ground (arith, h, cut)
      | inr (header, e) ↦
          λ h. good (header-inside payload size offset header e) header (ground (arith, h, e))
    ]

stays : (text : List ℕ) (next : ℕ) → Entry.entry text next ≢ Entry.undefined
stays text next h = cc

pub ea_entry-IsSafeBody : IsSafeBody ea_entry
unfolding ea_entry
ea_entry-IsSafeBody payload offset index =
    after_header-defined payload 8 offset _
      λ inside header. with_rest-defined payload (offset + 8) _ inside (λ rest. stays _ _)

pub ea_name_entry-IsSafeBody : IsSafeBody ea_name_entry
unfolding ea_name_entry
ea_name_entry-IsSafeBody payload offset index =
    after_header-defined payload 5 offset _
      λ inside header. with_rest-defined payload (offset + 5) _ inside (λ rest. stays _ _)

pub stream_entry-IsSafeBody : IsSafeBody stream_entry
unfolding stream_entry
stream_entry-IsSafeBody payload offset index =
    after_header-defined payload 24 offset _
      λ inside header. with_rest-defined payload (offset + 24) _ inside (λ rest. stays _ _)

pub directory_entry-IsSafeBody : (layout : Layout) → IsSafeBody (directory_entry layout)
unfolding directory_entry
directory_entry-IsSafeBody layout payload offset index =
    after_header-defined payload layout.name_offset offset _ λ inside header.
      with_rest-defined payload (offset + layout.name_offset) _ inside (λ rest. stays _ _)

module _ (windows : Windows) where
  pub change_entry-IsSafeBody : (layout : Layout) → IsSafeBody (change_entry windows layout)
  unfolding change_entry
  change_entry-IsSafeBody layout payload offset index =
      after_header-defined payload layout.name_offset offset _ λ inside header.
        with_rest-defined payload (offset + layout.name_offset) _ inside (λ rest. stays _ _)

  pub sid_entry-IsSafeBody : IsSafeBody (sid_entry windows)
  unfolding sid_entry
  sid_entry-IsSafeBody payload offset index =
      after_header-defined payload 8 offset _
        λ inside header. with_counted-defined payload (offset + 8) _ _ inside (λ sid. stays _ _)

  pub quota_entry-IsSafeBody : IsSafeBody (quota_entry windows)
  unfolding quota_entry
  quota_entry-IsSafeBody payload offset index =
      after_header-defined payload 40 offset _
        λ inside header. with_counted-defined payload (offset + 40) _ _ inside (λ sid. stays _ _)

-- On any captured bytes the seven entry loops of the client end with a text and read nothing outside
-- the payload: a payload that is not empty is shown as the texts of a chain of entries from its
-- beginning, each at the offset that the one before names; the last separator is dropped where the
-- last entry names none, and the text is marked where the payload ends before.
pub render_payloads-IsRendered :
    (windows : Windows) (layout : Layout) (payload : List ℕ)
    → payload ≢ []
    → IsRendered ea_entry 2 payload (render_eas_payload payload)
      × IsRendered ea_name_entry 1 payload (render_ea_names_payload payload)
      × IsRendered stream_entry 2 payload (render_streams_payload payload)
      × IsRendered (directory_entry layout) 2 payload (render_entries_payload layout payload)
      × IsRendered
          (change_entry windows layout)
          2
          payload
          (render_changes_payload windows layout payload)
      × IsRendered (sid_entry windows) 1 payload (render_sids_payload windows payload)
      × IsRendered (quota_entry windows) 2 payload (render_quotas_payload windows payload)
unfolding render_eas_payload render_ea_names_payload render_streams_payload render_entries_payload
    render_changes_payload render_sids_payload render_quotas_payload
render_payloads-IsRendered windows layout payload filled = (
  render_entries-IsRendered ea_entry 2 payload ea_entry-IsSafeBody filled,
  render_entries-IsRendered ea_name_entry 1 payload ea_name_entry-IsSafeBody filled,
  render_entries-IsRendered stream_entry 2 payload stream_entry-IsSafeBody filled,
  render_entries-IsRendered (directory_entry layout) 2 payload (directory_entry-IsSafeBody layout)
      filled,
  render_entries-IsRendered (change_entry windows layout) 2 payload
      (change_entry-IsSafeBody windows layout) filled,
  render_entries-IsRendered (sid_entry windows) 1 payload (sid_entry-IsSafeBody windows) filled,
  render_entries-IsRendered (quota_entry windows) 2 payload (quota_entry-IsSafeBody windows) filled,
)
