-- ===== src/Client/Entries/Kinds/Tests.antt =====
-- Entry lists of MiniMonClient/src/trace at concrete payloads.
use minifilter_monitor.Common.{ℕ, ◌≡◌, refl, List, [], ◌∷◌, ◌++◌, take, some, codes}
use minifilter_monitor.Client.Entries.{render_entries}
use minifilter_monitor.Client.Entries.Walks.{IsRendered}
use minifilter_monitor.Client.Entries.Kinds.{
  Layout, ea_entry, ea_name_entry, stream_entry, directory_entry, change_entry, sid_entry,
  quota_entry, render_eas_payload, render_ea_names_payload, render_streams_payload,
  render_entries_payload, render_changes_payload, render_sids_payload, render_quotas_payload,
}
use minifilter_monitor.Client.Entries.Kinds.Laws.{render_payloads-IsRendered}
use minifilter_monitor.Client.Windows.{nameless}

-- Two attributes: "A" with the value 1F, at 0, and "BC" with the flag 0x80 and no value, at 12.
abbrev two_attributes : List ℕ
two_attributes =
    12 ∷ 0 ∷ 0 ∷ 0 ∷ 0 ∷ 1 ∷ 1 ∷ 0 ∷ b'A' ∷ 0 ∷ 0x1F ∷ 0 ∷ 0 ∷ 0 ∷ 0 ∷ 0 ∷ 0x80 ∷ 2 ∷ 0 ∷ 0 ∷ b'B'
    ∷ b'C' ∷ 0 ∷ []

two_rendered :
    render_eas_payload two_attributes
    ≡ some (
        codes "1: EaName: A, EaValueLength: 1, EaValue: 1F, 2: EaName: BC, EaValueLength: 0"
        ++ codes ", Flags: FILE_NEED_EA")
unfolding render_eas_payload render_entries ea_entry
two_rendered = refl

-- The second entry is said to be at 12, behind the end of 11 bytes.
cut_off :
    render_eas_payload (take 11 two_attributes)
    ≡ some (codes "1: EaName: A, EaValueLength: 1, EaValue: 1F, ...")
unfolding render_eas_payload render_entries ea_entry
cut_off = refl

abbrev names_layout : Layout
names_layout = record { name_length_offset = 8; name_length_width = 4; name_offset = 12 }

render_payloads-IsRendered_example :
    IsRendered ea_entry 2 two_attributes (render_eas_payload two_attributes)
    × IsRendered ea_name_entry 1 two_attributes (render_ea_names_payload two_attributes)
    × IsRendered stream_entry 2 two_attributes (render_streams_payload two_attributes)
    × IsRendered
        (directory_entry names_layout)
        2
        two_attributes
        (render_entries_payload names_layout two_attributes)
    × IsRendered
        (change_entry nameless names_layout)
        2
        two_attributes
        (render_changes_payload nameless names_layout two_attributes)
    × IsRendered (sid_entry nameless) 1 two_attributes (render_sids_payload nameless two_attributes)
    × IsRendered
        (quota_entry nameless)
        2
        two_attributes
        (render_quotas_payload nameless two_attributes)
render_payloads-IsRendered_example =
    render_payloads-IsRendered nameless names_layout two_attributes (λ e. cc e)
