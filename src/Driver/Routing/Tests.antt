-- ===== src/Driver/Routing/Tests.antt =====
-- Operations at which the supplement's functions are chosen.
use minifilter_monitor.Common.{◌≡◌, refl, true, false, some, none}
use minifilter_monitor.Driver.Status.{success, unsuccessful, buffer_overflow}
use minifilter_monitor.Driver.Routing.{
  Parameters, Iopb, irp_mj_directory_control, directory_populate_file_name,
  directory_populate_query, populate_pre_operation, populate_post_operation,
}
use minifilter_monitor.Driver.Routing.Union.{member, one_member}

abbrev pub no_parameters : Parameters
no_parameters = record {
  read_length = 0;
  write_length = 0;
  set_information_buffer = false;
  query_information_buffer = false;
  ea_list = false;
  query_ea_length = 0;
  set_ea_length = 0;
  set_volume_buffer = false;
  query_volume_buffer = false;
  query_directory_file_name = false;
  query_directory_length = 0;
  notify_directory_length = 0;
  fs_control_input_length = 0;
  fs_control_output_length = 0;
  device_control_input_length = 0;
  device_control_output_length = 0;
  lock_length = false;
  security_descriptor = false;
  query_security_length = 0;
  wmi_data_path = false;
  sid_list = false;
  query_quota_length = 0;
  set_quota_length = 0;
  ending_offset = false;
  resource_to_release = false;
  query_open_information = false;
  network_information = false;
}

-- IRP_MN_QUERY_DIRECTORY with a file name and a buffer.
abbrev query : Iopb
query = record {
  major_function = irp_mj_directory_control;
  minor_function = 1;
  parameters = record no_parameters {
    query_directory_file_name = true;
    query_directory_length = 64;
  };
}

failed : populate_post_operation query unsuccessful ≡ none
unfolding populate_post_operation
failed = refl

overflowed : populate_post_operation query buffer_overflow ≡ some directory_populate_query
unfolding populate_post_operation
overflowed = refl

one_member_example : member directory_populate_file_name ≡ member directory_populate_query
unfolding populate_pre_operation populate_post_operation
one_member_example =
    one_member query true success directory_populate_file_name directory_populate_query refl refl
