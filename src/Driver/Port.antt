-- ===== src/Driver/Port.antt =====
-- MiniMonFlt/src/port.cpp: the communication port, its one client and the client's commands.
pub mod Connections
pub mod Messages
mod Tests
use minifilter_monitor.Common.{
  ℕ, ◌%◌, Bool, List, [], ◌∷◌, Option, none, some, is_some, not, ltb, ◌==◌, ◌||◌, if◌then◌else◌,
}
use minifilter_monitor.Protocol.{
  Record, Version, minimon_version, version_size, command_message_size,
}
use minifilter_monitor.Driver.Status.{
  NtStatus, nt_success, success, invalid_parameter, datatype_misalignment, device_busy,
}
use minifilter_monitor.Driver.State.{Driver}
use minifilter_monitor.Driver.Records.{clear, drain}

-- port::Open. The arguments are what FltBuildDefaultSecurityDescriptor returns, and what
-- FltCreateCommunicationPort returns with the port that it stores if it succeeds.
unfoldable pub open_port : NtStatus → NtStatus → ℕ → Driver → NtStatus × Driver
open_port security creation port d =
    if is_some d.server_port
    then (success, d)
    else if not (nt_success security)
    then (security, d)
    else if nt_success creation
    then (creation, record d { server_port = some port })
    else (creation, d)

unfoldable pub close_port : Driver → Driver
close_port d = record d { server_port = none }

unfoldable pub is_connected : Driver → Bool
is_connected d = is_some d.client_port

unfoldable pub connect_notify : ℕ → Driver → NtStatus × Driver
connect_notify new_client_port d = elim (d.client_port) [
  | some old ↦ (device_busy, d)
  | none ↦ (
    success,
    record d {
      client_port = some new_client_port;
      connections = new_client_port ∷ d.connections;
      store = clear d.store;
    },
  )
]

-- FltCloseClientPort on the port that was exchanged for null, if there is one.
unfoldable pub close_client_port : Option ℕ → List ℕ → List ℕ
close_client_port none ports = ports
close_client_port (some port) [] = []
close_client_port (some port) (p ∷ ports) =
    let rest = close_client_port (some port) ports in if p == port then ports else p ∷ rest

unfoldable pub disconnect_notify : Driver → Driver
unfolding close_client_port
disconnect_notify d = record d {
  client_port = none;
  connections = close_client_port d.client_port d.connections;
  store = clear d.store;
}

-- The last argument of FltCreateCommunicationPort: so many clients may be connected at a time.
abbrev pub max_connections : ℕ
max_connections = 1

-- The command in the client's input buffer, or the exception that reading it raises.
pub data Input : Type 0 where
  command : ℕ → Input
  unreadable : NtStatus → Input

-- The arguments of MessageNotify. `output` is the output buffer's address; `fault w` is the
-- exception that writing at its offset `w` raises, if any.
pub record Message : Type 0 where
  pub input : Option Input
  pub input_size : ℕ
  pub output : Option ℕ
  pub output_size : ℕ
  pub fault : ℕ → Option NtStatus

-- `written_size` is *pWrittenSize, `none` where it is not assigned; `records` and `version` are what
-- the output buffer has received.
pub record Answer : Type 0 where
  pub status : NtStatus
  pub written_size : Option ℕ
  pub records : List Record
  pub version : Option Version
  pub driver : Driver

abbrev pub fails : NtStatus → Driver → Answer
fails status d = record {
  status = status;
  written_size = none;
  records = [];
  version = none;
  driver = d;
}

abbrev pub get_records_command : ℕ
get_records_command = 0

abbrev pub get_version_command : ℕ
get_version_command = 1

-- alignof(protocol::Record) and alignof(protocol::Version).
abbrev pub record_alignment : ℕ
record_alignment = 8

abbrev pub version_alignment : ℕ
version_alignment = 2

-- case Command::GetRecords.
unfoldable pub get_records : Message → ℕ → Driver → Answer
get_records m output d =
    if m.output_size == 0
    then fails invalid_parameter d
    else if not (output % record_alignment == 0)
    then fails datatype_misalignment d
    else let drained = drain m.fault m.output_size d.store in
      record {
        status = drained.status;
        written_size = some drained.written_size;
        records = drained.written;
        version = none;
        driver = record d { store = drained.store };
      }

-- case Command::GetVersion.
unfoldable pub get_version : Message → ℕ → Driver → Answer
get_version m output d =
    if ltb m.output_size version_size
    then fails invalid_parameter d
    else if not (output % version_alignment == 0)
    then fails datatype_misalignment d
    else elim (m.fault 0) [
      | some code ↦ fails code d
      | none ↦ record {
        status = success;
        written_size = some version_size;
        records = [];
        version = some minimon_version;
        driver = d;
      }
    ]

-- The switch over the command.
unfoldable pub run_command : ℕ → Message → ℕ → Driver → Answer
run_command c m output d =
    if c == get_records_command
    then get_records m output d
    else if c == get_version_command
    then get_version m output d
    else fails invalid_parameter d

-- MessageNotify, from the input buffer and the output buffer's address.
unfoldable pub receive : Option Input → Option ℕ → Message → Driver → Answer
receive none output m d = fails invalid_parameter d
receive (some input) none m d = fails invalid_parameter d
receive (some (unreadable code)) (some output) m d =
    if ltb m.input_size command_message_size then fails invalid_parameter d else fails code d
receive (some (command c)) (some output) m d =
    if ltb m.input_size command_message_size
    then fails invalid_parameter d
    else run_command c m output d

unfoldable pub message_notify : Message → Driver → Answer
unfolding receive
message_notify m d = receive m.input m.output m d
