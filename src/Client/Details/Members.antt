-- ===== src/Client/Details/Members.antt =====
-- inc/protocol.h: the client reads one member of the supplement union. A union that the driver left
-- zeroed is zeros in every member; the bytes of another member are not given a meaning.
use minifilter_monitor.Common.{
  inl, inr, arith, leb, not, length, ◌≤◌, Bool-cases, ℕ, ◌≡◌, false, List, replicate, take, Option,
  none, some, ◌⊎◌, if◌then◌else◌, [],
}
use minifilter_monitor.Protocol.Supplements.{
  Payload, CreateSupplement, NamedSupplement, PairSupplement, LockControlSupplement, WmiSupplement,
  ModWriteSupplement, MountSupplement, Supplement, zero_payload, zero_name, read_write_payload_size,
  whole_payload_size, named_payload_size, name_count, query_ea_list_size, query_ea_payload_size,
  control_input_payload_size, control_output_payload_size, query_quota_sid_list_size,
  query_quota_payload_size, mount_volume_name_wchar_count, create_sid_size, create_ea_buffer_size,
  create_ecp_text_wchar_count,
}
use minifilter_monitor.Driver.Routing.Union.{Member}

abbrev zero_create : CreateSupplement
zero_create = record {
  captured_desired_access = false;
  captured_impersonated_sid = false;
  truncated_ecp_text = false;
  desired_access = 0;
  impersonated_sid = replicate create_sid_size 0;
  ea_buffer = zero_payload create_ea_buffer_size;
  ecp_text = replicate create_ecp_text_wchar_count 0;
}

abbrev zero_named : NamedSupplement
zero_named = record { payload = zero_payload named_payload_size; file_name = zero_name name_count }

abbrev zero_pair : ℕ → ℕ → PairSupplement
zero_pair first second = record { first = zero_payload first; second = zero_payload second }

abbrev zero_mod_write : ModWriteSupplement
zero_mod_write = record {
  captured_ending_offset = false;
  captured_resource = false;
  ending_offset = 0;
  resource = 0;
}

abbrev zero_mount : MountSupplement
zero_mount = record {
  captured_volume_name = false;
  captured_file_system_type = false;
  file_system_type = 0;
  volume_name = replicate mount_volume_name_wchar_count 0;
}

-- ExtractPayload, and the spans that are made like it: the captured bytes, or none. `none` stands for a
-- span that reaches past its array.
unfoldable pub extract_payload : Payload → Option (List ℕ)
extract_payload p =
    if not p.captured
    then some []
    else if leb p.captured_size (length p.bytes)
    then some (take p.captured_size p.bytes)
    else none

-- The captured bytes lie in the array.
abbrev pub HasRoom : Payload → Type 0
HasRoom p = p.captured_size ≤ length p.bytes

pub extract_payload-IsSome :
    (p : Payload) → HasRoom p → (bytes : List ℕ) × (extract_payload p ≡ some bytes)
unfolding extract_payload
extract_payload-IsSome p room = elim (Bool-cases p.captured) [
  | inl captured ↦ (take p.captured_size p.bytes, ground (arith, captured, room))
  | inr skipped ↦ ([], ground (arith, skipped))
]

-- The captured bytes of every payload of the member that was written lie in their array.
abbrev pub IsFilled : Supplement → Type 0
IsFilled Supplement.zeroed = Unit
IsFilled (Supplement.create x) = HasRoom x.ea_buffer
IsFilled (Supplement.read_write x) = HasRoom x
IsFilled (Supplement.set_info x) = HasRoom x.payload
IsFilled (Supplement.query_info x) = HasRoom x
IsFilled (Supplement.query_ea x) = HasRoom x.first × HasRoom x.second
IsFilled (Supplement.set_ea x) = HasRoom x
IsFilled (Supplement.volume_info x) = HasRoom x
IsFilled (Supplement.query_directory x) = HasRoom x.payload
IsFilled (Supplement.notify_directory x) = HasRoom x
IsFilled (Supplement.fs_control x) = HasRoom x.first × HasRoom x.second
IsFilled (Supplement.device_io_control x) = HasRoom x.first × HasRoom x.second
IsFilled (Supplement.lock_control x) = Unit
IsFilled (Supplement.security x) = HasRoom x
IsFilled (Supplement.wmi x) = Unit
IsFilled (Supplement.query_quota x) = HasRoom x.first × HasRoom x.second
IsFilled (Supplement.set_quota x) = HasRoom x
IsFilled (Supplement.mod_write x) = Unit
IsFilled (Supplement.mount x) = Unit

-- The member that was written.
unfoldable pub written_member : Supplement → Option Member
written_member Supplement.zeroed = none
written_member (Supplement.create x) = some Member.create
written_member (Supplement.read_write x) = some Member.read_write
written_member (Supplement.set_info x) = some Member.set_info
written_member (Supplement.query_info x) = some Member.query_info
written_member (Supplement.query_ea x) = some Member.query_ea
written_member (Supplement.set_ea x) = some Member.set_ea
written_member (Supplement.volume_info x) = some Member.volume_info
written_member (Supplement.query_directory x) = some Member.query_directory
written_member (Supplement.notify_directory x) = some Member.notify_directory
written_member (Supplement.fs_control x) = some Member.fs_control
written_member (Supplement.device_io_control x) = some Member.device_io_control
written_member (Supplement.lock_control x) = some Member.lock_control
written_member (Supplement.security x) = some Member.security
written_member (Supplement.wmi x) = some Member.wmi
written_member (Supplement.query_quota x) = some Member.query_quota
written_member (Supplement.set_quota x) = some Member.set_quota
written_member (Supplement.mod_write x) = some Member.mod_write
written_member (Supplement.mount x) = some Member.mount

-- A member can be read: nothing was written, or this member, and its payloads lie in their arrays.
abbrev pub IsReadable : Supplement → Member → Type 0
IsReadable s m = IsFilled s × ((s ≡ Supplement.zeroed) ⊎ (written_member s ≡ some m))

unfoldable pub create_member : Supplement → Option CreateSupplement
create_member Supplement.zeroed = some (zero_create)
create_member (Supplement.create x) = some x
create_member other = none

unfoldable pub read_write_member : Supplement → Option Payload
read_write_member Supplement.zeroed = some (zero_payload read_write_payload_size)
read_write_member (Supplement.read_write x) = some x
read_write_member other = none

unfoldable pub set_info_member : Supplement → Option NamedSupplement
set_info_member Supplement.zeroed = some (zero_named)
set_info_member (Supplement.set_info x) = some x
set_info_member other = none

unfoldable pub query_info_member : Supplement → Option Payload
query_info_member Supplement.zeroed = some (zero_payload whole_payload_size)
query_info_member (Supplement.query_info x) = some x
query_info_member other = none

unfoldable pub query_ea_member : Supplement → Option PairSupplement
query_ea_member Supplement.zeroed = some (zero_pair query_ea_list_size query_ea_payload_size)
query_ea_member (Supplement.query_ea x) = some x
query_ea_member other = none

unfoldable pub set_ea_member : Supplement → Option Payload
set_ea_member Supplement.zeroed = some (zero_payload whole_payload_size)
set_ea_member (Supplement.set_ea x) = some x
set_ea_member other = none

unfoldable pub volume_info_member : Supplement → Option Payload
volume_info_member Supplement.zeroed = some (zero_payload whole_payload_size)
volume_info_member (Supplement.volume_info x) = some x
volume_info_member other = none

unfoldable pub query_directory_member : Supplement → Option NamedSupplement
query_directory_member Supplement.zeroed = some (zero_named)
query_directory_member (Supplement.query_directory x) = some x
query_directory_member other = none

unfoldable pub notify_directory_member : Supplement → Option Payload
notify_directory_member Supplement.zeroed = some (zero_payload whole_payload_size)
notify_directory_member (Supplement.notify_directory x) = some x
notify_directory_member other = none

unfoldable pub fs_control_member : Supplement → Option PairSupplement
fs_control_member Supplement.zeroed =
    some (zero_pair control_input_payload_size control_output_payload_size)
fs_control_member (Supplement.fs_control x) = some x
fs_control_member other = none

unfoldable pub device_io_control_member : Supplement → Option PairSupplement
device_io_control_member Supplement.zeroed =
    some (zero_pair control_input_payload_size control_output_payload_size)
device_io_control_member (Supplement.device_io_control x) = some x
device_io_control_member other = none

unfoldable pub lock_control_member : Supplement → Option LockControlSupplement
lock_control_member Supplement.zeroed = some (record { captured_length = false; length = 0 })
lock_control_member (Supplement.lock_control x) = some x
lock_control_member other = none

unfoldable pub security_member : Supplement → Option Payload
security_member Supplement.zeroed = some (zero_payload whole_payload_size)
security_member (Supplement.security x) = some x
security_member other = none

unfoldable pub wmi_member : Supplement → Option WmiSupplement
wmi_member Supplement.zeroed = some (record { captured_guid = false; guid = replicate 16 0 })
wmi_member (Supplement.wmi x) = some x
wmi_member other = none

unfoldable pub query_quota_member : Supplement → Option PairSupplement
query_quota_member Supplement.zeroed =
    some (zero_pair query_quota_sid_list_size query_quota_payload_size)
query_quota_member (Supplement.query_quota x) = some x
query_quota_member other = none

unfoldable pub set_quota_member : Supplement → Option Payload
set_quota_member Supplement.zeroed = some (zero_payload whole_payload_size)
set_quota_member (Supplement.set_quota x) = some x
set_quota_member other = none

unfoldable pub mod_write_member : Supplement → Option ModWriteSupplement
mod_write_member Supplement.zeroed = some (zero_mod_write)
mod_write_member (Supplement.mod_write x) = some x
mod_write_member other = none

unfoldable pub mount_member : Supplement → Option MountSupplement
mount_member Supplement.zeroed = some (zero_mount)
mount_member (Supplement.mount x) = some x
mount_member other = none
