-- ===== src/Driver/Port/Connections.antt =====
-- ConnectNotify and DisconnectNotify of MiniMonFlt/src/port.cpp.
use minifilter_monitor.Common.{ℕ, ◌≡◌, ◌<◌, [], ◌∷◌, none, some, arith, true, false, ◌⊎◌, length}
use minifilter_monitor.Driver.Status.{success, device_busy}
use minifilter_monitor.Driver.State.{Driver}
use minifilter_monitor.Driver.Records.Bounds.{IsCounted, clear-IsCounted}
use minifilter_monitor.Driver.Port.{
  is_connected, connect_notify, disconnect_notify, max_connections,
}

-- While a client is connected every other one is refused and nothing changes. With none connected,
-- the new client finds no record and no drop of an earlier session, and is the connected one.
pub connect_notify-exclusive :
    (port held : ℕ) (d : Driver)
    → IsCounted held d.store
    → let (status, d') = connect_notify port d in
      ((is_connected d ≡ true) × (status ≡ device_busy) × (d' ≡ d))
      ⊎ ((is_connected d ≡ false)
          × (status ≡ success)
          × (d'.client_port ≡ some port)
          × (d'.store.list ≡ [])
          × (d'.store.dropped ≡ 0)
          × IsCounted held d'.store)
unfolding connect_notify is_connected
connect_notify-exclusive port held d v =
    let (counted, empty, none_dropped, held_only, r) = clear-IsCounted held d.store v in
    ground arith

-- The driver holds the connection of its client and no other.
abbrev pub IsConnectedOnce : Driver → Type 0
IsConnectedOnce d =
    ((d.client_port ≡ none) × (d.connections ≡ []))
    ⊎ ((port : ℕ) × (d.client_port ≡ some port) × (d.connections ≡ port ∷ []))

-- Where the driver holds its client's connection and no other, a disconnect closes it, so that the
-- Filter Manager has room for another one, and frees every listed record; the next client is connected
-- by the one connection that is then held.
pub connect-disconnect :
    (port held : ℕ) (d : Driver)
    → IsCounted held d.store
    → IsConnectedOnce d
    → let d' = disconnect_notify d in
      (length d'.connections < max_connections)
      × (d'.store.list ≡ [])
      × (d'.store.allocated ≡ held)
      × ((connect_notify port d').0 ≡ success)
      × ((connect_notify port d').1.client_port ≡ some port)
      × IsConnectedOnce (connect_notify port d').1
unfolding connect_notify disconnect_notify
connect-disconnect port held d v once =
    let (counted, empty, none_dropped, held_only, r) = clear-IsCounted held d.store v in
    ground (arith, once)
