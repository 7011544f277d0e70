-- ===== src/Driver/State.antt =====
-- The variables of MiniMonFlt/src/port.cpp, records.cpp and transaction.cpp, and the IRQLs that the
-- code tells apart (`dispatch_level` stands for it and all above).
use minifilter_monitor.Common.{ℕ, Bool, true, false, Option, List}
use minifilter_monitor.Driver.Records.{Store}

-- A port is the number of its handle; `none` is a null pointer. `connections`: the client ports that
-- the driver has accepted and has not closed by FltCloseClientPort.
pub record Driver : Type 0 where
  pub server_port : Option ℕ
  pub client_port : Option ℕ
  pub connections : List ℕ
  pub store : Store
  pub transaction_sequence : ℕ

pub data Irql : Type 0 where
  passive_level apc_level dispatch_level : Irql

abbrev pub at_passive_level : Irql → Bool
at_passive_level passive_level = true
at_passive_level _ = false

abbrev pub below_dispatch_level : Irql → Bool
below_dispatch_level dispatch_level = false
below_dispatch_level _ = true
