-- ===== src/Client/Details/Defined.antt =====
-- MiniMonClient/src/trace/details: each rendering has a text where the member of the union that it
-- reads may be read.
use minifilter_monitor.Common.{
  ℕ, ◌≡◌, refl, Bool, true, false, ◌==◌, List, [], Option, none, some, Option-cases, is_some, inl,
  inr, arith, if◌then◌else◌,
}
use minifilter_monitor.Protocol.{RecordData}
use minifilter_monitor.Protocol.Parameters.Requests.{
  query_directory_parameters, notify_directory_parameters,
}
use minifilter_monitor.Driver.Routing.Union.{Member}
use minifilter_monitor.Client.Windows.{Windows}
use minifilter_monitor.Client.Entries.Walks.{render_entries-ends}
use minifilter_monitor.Client.Entries.Arrays.{
  render_items-ends, object_id_text, reparse_point_text, render_object_ids_payload,
  render_reparse_points_payload,
}
use minifilter_monitor.Client.Entries.Kinds.{
  Layout, ea_entry, ea_name_entry, directory_entry, change_entry, sid_entry, quota_entry,
  render_eas_payload, render_ea_names_payload, render_entries_payload, render_changes_payload,
  render_sids_payload, render_quotas_payload,
}
use minifilter_monitor.Client.Entries.Kinds.Laws.{
  ea_entry-IsSafeBody, ea_name_entry-IsSafeBody, directory_entry-IsSafeBody,
  change_entry-IsSafeBody, sid_entry-IsSafeBody, quota_entry-IsSafeBody,
}
use minifilter_monitor.Client.Details.Members.{IsReadable, extract_payload-IsSome}
use minifilter_monitor.Client.Details.Reading.{
  IsSome, create_member-IsSome, read_write_member-IsSome, query_ea_member-IsSome,
  set_ea_member-IsSome, query_quota_member-IsSome, set_quota_member-IsSome,
  query_directory_member-IsSome, notify_directory_member-IsSome, lock_control_member-IsSome,
  security_member-IsSome, wmi_member-IsSome, mod_write_member-IsSome, mount_member-IsSome,
}
use minifilter_monitor.Client.Details.Requests.{has_bit, render_create, render_copy}
use minifilter_monitor.Client.Details.Controls.{
  render_lock, render_query_security, render_set_security, render_wmi, render_acquire, render_mount,
}
use minifilter_monitor.Client.Details.Lists.{
  render_query_ea, render_set_ea, render_query_quota, render_set_quota,
}
use minifilter_monitor.Client.Details.Directories.{
  entry_layout, change_layout, render_query_directory_payload, render_query_directory,
  render_notify_directory_payload, render_notify_directory,
}

-- The rendering has a text.
abbrev pub HasText : Option (List ℕ) → Type 0
HasText o = is_some o ≡ true

pub if-HasText :
    (b : Bool) (x y : Option (List ℕ)) → HasText x → HasText y → HasText (if b then x else y)
if-HasText true x y hx hy = hx
if-HasText false x y hx hy = hy

if_IsSome : (b : Bool) {x y : Option (List ℕ)} → IsSome x → IsSome y → IsSome (if b then x else y)
if_IsSome true hx hy = hx
if_IsSome false hx hy = hy

-- The loops of the entries end with a text.
eas_end : (payload : List ℕ) → IsSome (render_eas_payload payload)
unfolding render_eas_payload
eas_end payload = render_entries-ends ea_entry 2 payload ea_entry-IsSafeBody

ea_names_end : (payload : List ℕ) → IsSome (render_ea_names_payload payload)
unfolding render_ea_names_payload
ea_names_end payload = render_entries-ends ea_name_entry 1 payload ea_name_entry-IsSafeBody

entries_end : (l : Layout) (payload : List ℕ) → IsSome (render_entries_payload l payload)
unfolding render_entries_payload
entries_end l payload =
    render_entries-ends (directory_entry l) 2 payload (directory_entry-IsSafeBody l)

object_ids_end :
    (payload : List ℕ) (truncated : Bool) → IsSome (render_object_ids_payload payload truncated)
unfolding render_object_ids_payload
object_ids_end payload truncated =
    render_items-ends 72 object_id_text payload truncated (omega arith)

module _ (windows : Windows) where
  changes_end : (l : Layout) (payload : List ℕ) → IsSome (render_changes_payload windows l payload)
  unfolding render_changes_payload
  changes_end l payload =
      render_entries-ends (change_entry windows l) 2 payload (change_entry-IsSafeBody windows l)

  sids_end : (payload : List ℕ) → IsSome (render_sids_payload windows payload)
  unfolding render_sids_payload
  sids_end payload =
      render_entries-ends (sid_entry windows) 1 payload (sid_entry-IsSafeBody windows)

  quotas_end : (payload : List ℕ) → IsSome (render_quotas_payload windows payload)
  unfolding render_quotas_payload
  quotas_end payload =
      render_entries-ends (quota_entry windows) 2 payload (quota_entry-IsSafeBody windows)

  reparse_points_end :
      (payload : List ℕ) (truncated : Bool)
      → IsSome (render_reparse_points_payload windows payload truncated)
  unfolding render_reparse_points_payload
  reparse_points_end payload truncated =
      render_items-ends 16 (reparse_point_text windows) payload truncated (omega arith)

module _ (r : RecordData) where
  pub render_copy-HasText : IsReadable r.supplement Member.read_write → HasText (render_copy r)
  unfolding render_copy
  render_copy-HasText h =
      let (s, e, room) = read_write_member-IsSome r.supplement h in
      let (bytes, f) = extract_payload-IsSome s room in
      if-HasText (has_bit r.callback_minor_id 4) _ _ refl (simp (e, f))

  pub render_query_ea-HasText :
      IsReadable r.supplement Member.query_ea → HasText (render_query_ea r)
  unfolding render_query_ea
  render_query_ea-HasText h =
      let (s, e, (first, second)) = query_ea_member-IsSome r.supplement h in
      let (list, l) = extract_payload-IsSome s.first first in
      let (payload, p) = extract_payload-IsSome s.second second in
      let (names, f) = ea_names_end list in let (eas, g) = eas_end payload in simp (e, l, p, f, g)

  pub render_set_ea-HasText : IsReadable r.supplement Member.set_ea → HasText (render_set_ea r)
  unfolding render_set_ea
  render_set_ea-HasText h =
      let (s, e, room) = set_ea_member-IsSome r.supplement h in
      let (payload, f) = extract_payload-IsSome s room in
      let (eas, g) = eas_end payload in simp (e, f, g)

  pub render_lock-HasText : IsReadable r.supplement Member.lock_control → HasText (render_lock r)
  unfolding render_lock
  render_lock-HasText h =
      let (s, e) = lock_control_member-IsSome r.supplement h in
      if-HasText (r.callback_minor_id == 1) _ _ (simp e) (
        if-HasText (r.callback_minor_id == 2) _ _ (simp e)
          (if-HasText (r.callback_minor_id == 4) _ _ refl refl))

  pub render_wmi-HasText : IsReadable r.supplement Member.wmi → HasText (render_wmi r)
  unfolding render_wmi
  render_wmi-HasText h = let (s, e) = wmi_member-IsSome r.supplement h in simp e

  pub render_acquire-HasText : IsReadable r.supplement Member.mod_write → HasText (render_acquire r)
  unfolding render_acquire
  render_acquire-HasText h = let (s, e) = mod_write_member-IsSome r.supplement h in simp e

module _ (windows : Windows) (r : RecordData) where
  pub render_create-HasText :
      IsReadable r.supplement Member.create → HasText (render_create windows r)
  unfolding render_create
  render_create-HasText h =
      let (s, e, room) = create_member-IsSome r.supplement h in
      let (buffer, f) = extract_payload-IsSome s.ea_buffer room in
      let (eas, g) = eas_end buffer in simp (e, f, g)

  pub render_query_quota-HasText :
      IsReadable r.supplement Member.query_quota → HasText (render_query_quota windows r)
  unfolding render_query_quota
  render_query_quota-HasText h =
      let (s, e, (first, second)) = query_quota_member-IsSome r.supplement h in
      let (list, l) = extract_payload-IsSome s.first first in
      let (payload, p) = extract_payload-IsSome s.second second in
      let (sids, f) = sids_end windows list in
      let (quotas, g) = quotas_end windows payload in simp (e, l, p, f, g)

  pub render_set_quota-HasText :
      IsReadable r.supplement Member.set_quota → HasText (render_set_quota windows r)
  unfolding render_set_quota
  render_set_quota-HasText h =
      let (s, e, room) = set_quota_member-IsSome r.supplement h in
      let (payload, f) = extract_payload-IsSome s room in
      let (quotas, g) = quotas_end windows payload in simp (e, f, g)

  pub render_query_security-HasText :
      IsReadable r.supplement Member.security → HasText (render_query_security windows r)
  unfolding render_query_security
  render_query_security-HasText h =
      let (s, e, room) = security_member-IsSome r.supplement h in
      let (payload, f) = extract_payload-IsSome s room in simp (e, f)

  pub render_set_security-HasText :
      IsReadable r.supplement Member.security → HasText (render_set_security windows r)
  unfolding render_set_security
  render_set_security-HasText h =
      let (s, e, room) = security_member-IsSome r.supplement h in
      let (payload, f) = extract_payload-IsSome s room in simp (e, f)

  pub render_mount-HasText : IsReadable r.supplement Member.mount → HasText (render_mount windows r)
  unfolding render_mount
  render_mount-HasText h = let (s, e) = mount_member-IsSome r.supplement h in simp e

  entries_of_class :
      (info_class : ℕ) (payload : List ℕ)
      → IsSome (elim (entry_layout info_class) as (λ o. Option (List ℕ)) [
        | none ↦ some []
        | some l ↦ render_entries_payload l payload
      ])
  entries_of_class info_class payload = elim (Option-cases (entry_layout info_class)) [
    | inl other ↦ ([], rw other)
    | inr (l, e) ↦ rw e (entries_end l payload)
  ]

  query_payload_end :
      (info_class : ℕ) (truncated : Bool) (payload : List ℕ)
      → IsSome (render_query_directory_payload windows info_class truncated payload)
  unfolding render_query_directory_payload
  query_payload_end info_class truncated payload =
      if_IsSome (info_class == 29) (object_ids_end payload truncated) (
        if_IsSome (info_class == 33) (reparse_points_end windows payload truncated)
          (entries_of_class info_class payload))

  pub render_query_directory-HasText :
      IsReadable r.supplement Member.query_directory → HasText (render_query_directory windows r)
  unfolding render_query_directory
  render_query_directory-HasText h =
      let (s, e, room) = query_directory_member-IsSome r.supplement h in
      let (payload, f) = extract_payload-IsSome s.payload room in
      let (text, g) =
        query_payload_end (query_directory_parameters r.parameters).file_information_class
          s.payload.truncated payload in
      simp (e, f, g)

  notify_payload_end :
      (info_class : ℕ) (payload : List ℕ)
      → IsSome (render_notify_directory_payload windows info_class payload)
  unfolding render_notify_directory_payload
  notify_payload_end info_class payload = elim (Option-cases (change_layout info_class)) [
    | inl other ↦ ([], rw (other, render_notify_directory_payload))
    | inr (l, e) ↦ rw (e, render_notify_directory_payload) (changes_end windows l payload)
  ]

  pub render_notify_directory-HasText :
      IsReadable r.supplement Member.notify_directory → HasText (render_notify_directory windows r)
  unfolding render_notify_directory
  render_notify_directory-HasText h =
      let (s, e, room) = notify_directory_member-IsSome r.supplement h in
      let (payload, f) = extract_payload-IsSome s room in
      let (text, g) =
        notify_payload_end
          (if r.callback_minor_id == 3
            then (notify_directory_parameters r.parameters).directory_notify_information_class
            else 1)
          payload in
      simp (e, f, g)
