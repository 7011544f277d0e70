-- ===== src/Driver/Port/Tests.antt =====
-- The port's theorems at concrete calls.
use minifilter_monitor.Common.{
  ◌≡◌, ◌<◌, length, inr, refl, true, false, none, some, [], ◌∷◌, ◌⊎◌, arith,
}
use minifilter_monitor.Protocol.{zero_record}
use minifilter_monitor.Driver.Status.{success, device_busy}
use minifilter_monitor.Driver.State.{Driver}
use minifilter_monitor.Driver.Records.{drain}
use minifilter_monitor.Driver.Records.Bounds.{IsCounted}
use minifilter_monitor.Driver.Port.{
  Message, command, get_records_command, connect_notify, disconnect_notify, message_notify,
  is_connected, max_connections, run_command, get_records,
}
use minifilter_monitor.Driver.Port.Connections.{
  IsConnectedOnce, connect_notify-exclusive, connect-disconnect,
}
use minifilter_monitor.Driver.Port.Messages.{IsSafe, message_notify-IsSafe}

-- A client is connected, one record is listed and one is in a callback's hands.
abbrev serving : Driver
serving = record {
  server_port = some 1;
  client_port = some 7;
  connections = 7 ∷ [];
  store = record {
    list = zero_record ∷ [];
    allocated = 2;
    dropped = 1;
    sequence = 3;
    created = true;
    max_memory_kb = 9;
  };
  transaction_sequence = 0;
}

serving-IsCounted : IsCounted 1 serving.store
serving-IsCounted = omega arith

abbrev request : Message
request = record {
  input = some (command get_records_command);
  input_size = 8;
  output = some 4096;
  output_size = 6000;
  fault = λ w. none;
}

request_drains : (message_notify request serving).driver.store.list ≡ []
unfolding message_notify run_command get_records drain
request_drains = refl

message_notify-IsSafe_example : IsSafe 1 request serving (message_notify request serving)
message_notify-IsSafe_example =
    message_notify-IsSafe 1 request serving (omega arith) serving-IsCounted

connect_notify-exclusive_example :
    let (status, d') = connect_notify 8 serving in
    ((is_connected serving ≡ true) × (status ≡ device_busy) × (d' ≡ serving))
    ⊎ ((is_connected serving ≡ false)
        × (status ≡ success)
        × (d'.client_port ≡ some 8)
        × (d'.store.list ≡ [])
        × (d'.store.dropped ≡ 0)
        × IsCounted 1 d'.store)
connect_notify-exclusive_example = connect_notify-exclusive 8 1 serving serving-IsCounted

connect-disconnect_example :
    let d' = disconnect_notify serving in
    (length d'.connections < max_connections)
    × (d'.store.list ≡ [])
    × (d'.store.allocated ≡ 1)
    × ((connect_notify 8 d').0 ≡ success)
    × ((connect_notify 8 d').1.client_port ≡ some 8)
    × IsConnectedOnce (connect_notify 8 d').1
connect-disconnect_example = connect-disconnect 8 1 serving serving-IsCounted (inr (7, refl, refl))
