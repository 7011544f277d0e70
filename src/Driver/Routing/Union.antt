-- ===== src/Driver/Routing/Union.antt =====
-- MiniMonFlt/src/trace/supplement.cpp: the members of the supplement union that are written.
use minifilter_monitor.Common.{
  ℕ, ◌≡◌, ◌≢◌, Bool, true, false, not, ◌&&◌, Option, none, some, ◌⊎◌, arith, ◌==◌, ◌∙◌, sym,
  if◌then◌else◌,
}
use minifilter_monitor.Driver.Status.{NtStatus}
use minifilter_monitor.Driver.Routing.{
  MajorFunction, Parameters, Iopb, Populate, calls, is_query_directory, is_notify_directory,
  pre_operation_switch, post_operation_switch, populate_pre_operation, populate_post_operation,
  has_data, create_populate, read_write_populate_write, read_write_populate_read, info_populate_set,
  info_populate_query, info_populate_query_open, info_populate_network_query_open,
  ea_populate_ea_list, ea_populate_set, ea_populate_query, volume_populate_set,
  volume_populate_query, directory_populate_file_name, directory_populate_query,
  directory_populate_notify, filesystem_populate_input, filesystem_populate_output,
  deviceio_populate_input, deviceio_populate_output, lock_populate, security_populate_set,
  security_populate_query, wmi_populate, quota_populate_sid_list, quota_populate_set,
  quota_populate_query, mod_write_populate_ending_offset, mod_write_populate_resource,
  mount_populate, irp_mj_create, irp_mj_read, irp_mj_write, irp_mj_query_information,
  irp_mj_set_information, irp_mj_query_ea, irp_mj_set_ea, irp_mj_query_volume_information,
  irp_mj_set_volume_information, irp_mj_directory_control, irp_mj_file_system_control,
  irp_mj_device_control, irp_mj_internal_device_control, irp_mj_lock_control, irp_mj_query_security,
  irp_mj_set_security, irp_mj_system_control, irp_mj_query_quota, irp_mj_set_quota,
  irp_mj_acquire_for_mod_write, irp_mj_volume_mount, irp_mj_query_open, irp_mj_network_query_open,
  irp_mj_other,
}

-- The union's members, by the populate functions that write them.
pub data Member : Type 0 where
  create read_write set_info query_info query_ea set_ea volume_info query_directory : Member
  notify_directory fs_control device_io_control lock_control security wmi : Member
  query_quota set_quota mod_write mount : Member

-- The member whose address each call passes.
unfoldable pub member : Populate → Member
member create_populate = create
member read_write_populate_write = read_write
member read_write_populate_read = read_write
member info_populate_set = set_info
member info_populate_query = query_info
member info_populate_query_open = query_info
member info_populate_network_query_open = query_info
member ea_populate_ea_list = query_ea
member ea_populate_set = set_ea
member ea_populate_query = query_ea
member volume_populate_set = volume_info
member volume_populate_query = volume_info
member directory_populate_file_name = query_directory
member directory_populate_query = query_directory
member directory_populate_notify = notify_directory
member filesystem_populate_input = fs_control
member filesystem_populate_output = fs_control
member deviceio_populate_input = device_io_control
member deviceio_populate_output = device_io_control
member lock_populate = lock_control
member security_populate_set = security
member security_populate_query = security
member wmi_populate = wmi
member quota_populate_sid_list = query_quota
member quota_populate_set = set_quota
member quota_populate_query = query_quota
member mod_write_populate_ending_offset = mod_write
member mod_write_populate_resource = mod_write
member mount_populate = mount

none-some : {f : Populate} → none ≢ some f
none-some h = ground (arith, h)

calls-member :
    (condition : Bool) (f g : Populate) → calls condition f ≡ some g → member g ≡ member f
calls-member true f g h = ground arith
calls-member false f g h = absurd (ground (arith, h))

directory_agree :
    (query name room notify : Bool) (before after : Populate)
    → (query ≡ false) ⊎ (notify ≡ false)
    → calls (query && name) directory_populate_file_name ≡ some before
    → (if query && room
        then some directory_populate_query
        else calls notify directory_populate_notify)
      ≡ some after
    → member before ≡ member after
unfolding member
directory_agree false name room notify b a apart hb ha = absurd (none-some hb)
directory_agree true false room notify b a apart hb ha = absurd (none-some hb)
directory_agree true true true notify b a apart hb ha =
    calls-member true _ b hb ∙ sym (calls-member true _ a ha)
directory_agree true true false false b a apart hb ha = absurd (none-some ha)
directory_agree true true false true b a apart hb ha = absurd (ground (arith, apart))

unguarded :
    (good : Bool) (f : Option Populate) (after : Populate)
    → (if not good then none else f) ≡ some after
    → f ≡ some after
unguarded true f after h = h
unguarded false f after h = absurd (none-some h)

switches_agree :
    (major : MajorFunction) (minor : ℕ) (p : Parameters) (has_volume : Bool)
    (before after : Populate)
    → pre_operation_switch major minor p has_volume ≡ some before
    → post_operation_switch major minor p ≡ some after
    → member before ≡ member after
unfolding pre_operation_switch post_operation_switch member
switches_agree irp_mj_create minor p v b a hb ha = absurd (none-some ha)
switches_agree irp_mj_read minor p v b a hb ha = absurd (none-some hb)
switches_agree irp_mj_write minor p v b a hb ha = absurd (none-some ha)
switches_agree irp_mj_query_information minor p v b a hb ha = absurd (none-some hb)
switches_agree irp_mj_set_information minor p v b a hb ha = absurd (none-some ha)
switches_agree irp_mj_query_ea minor p v b a hb ha =
    calls-member _ _ b hb ∙ sym (calls-member _ _ a ha)
switches_agree irp_mj_set_ea minor p v b a hb ha = absurd (none-some ha)
switches_agree irp_mj_query_volume_information minor p v b a hb ha = absurd (none-some hb)
switches_agree irp_mj_set_volume_information minor p v b a hb ha = absurd (none-some ha)
switches_agree irp_mj_directory_control minor p v b a hb ha =
    directory_agree (is_query_directory minor) p.query_directory_file_name
      (not (p.query_directory_length == 0))
      (is_notify_directory minor && not (p.notify_directory_length == 0)) b a (ground arith) hb ha
switches_agree irp_mj_file_system_control minor p v b a hb ha =
    calls-member _ _ b hb ∙ sym (calls-member _ _ a ha)
switches_agree irp_mj_device_control minor p v b a hb ha =
    calls-member _ _ b hb ∙ sym (calls-member _ _ a ha)
switches_agree irp_mj_internal_device_control minor p v b a hb ha =
    calls-member _ _ b hb ∙ sym (calls-member _ _ a ha)
switches_agree irp_mj_lock_control minor p v b a hb ha = absurd (none-some ha)
switches_agree irp_mj_query_security minor p v b a hb ha = absurd (none-some hb)
switches_agree irp_mj_set_security minor p v b a hb ha = absurd (none-some ha)
switches_agree irp_mj_system_control minor p v b a hb ha = absurd (none-some ha)
switches_agree irp_mj_query_quota minor p v b a hb ha =
    calls-member _ _ b hb ∙ sym (calls-member _ _ a ha)
switches_agree irp_mj_set_quota minor p v b a hb ha = absurd (none-some ha)
switches_agree irp_mj_acquire_for_mod_write minor p v b a hb ha =
    calls-member _ _ b hb ∙ sym (calls-member _ _ a ha)
switches_agree irp_mj_volume_mount minor p v b a hb ha = absurd (none-some ha)
switches_agree irp_mj_query_open minor p v b a hb ha = absurd (none-some hb)
switches_agree irp_mj_network_query_open minor p v b a hb ha = absurd (none-some hb)
switches_agree irp_mj_other minor p v b a hb ha = absurd (none-some hb)

-- For one operation, whose major and minor codes stay what they are, the functions called before and
-- after it write the same member of the union: none is read as another.
pub one_member :
    (i : Iopb) (has_volume : Bool) (status : NtStatus) (before after : Populate)
    → populate_pre_operation i has_volume ≡ some before
    → populate_post_operation i status ≡ some after
    → member before ≡ member after
unfolding populate_pre_operation populate_post_operation
one_member i v status before after hb ha =
    switches_agree i.major_function i.minor_function i.parameters v before after hb
      (unguarded (has_data status) _ after ha)
