-- ===== src/Daemon/Preparing.antt =====
-- internal/daemon/manager.go and backend.go: what Start and Adopt do before startItem.
-- The machine that the daemon runs on, with its devices, is a parameter.
pub mod Adopted
use adb_tcp_bridge.Common.{
  ℕ, Bool, not, ◌||◌, Option, none, some, ◌++◌, Bytes, codes, bytes_eq, Result, ok, err,
  if◌then◌else◌,
}
use adb_tcp_bridge.Strconv.{itoa}
use adb_tcp_bridge.Strconv.Decimal.{pos}
use adb_tcp_bridge.Listening.{
  Config, Server, Properties, new_server, Bound, Listened, listening, listen_failed, no_port,
  listen,
}
use adb_tcp_bridge.Listening
use adb_tcp_bridge.Daemon.Manager.{BridgeInfo, BridgeRestore, Manager, StartConfig, Prepared, start}
use adb_tcp_bridge.Daemon.Manager
use adb_tcp_bridge.Daemon.Handler.{Settings}

-- What ReadProperties gives for a serial; what a port gives; the address of a listener beside a host;
-- and the texts of errors.
pub record Machine : Type 0 where
  pub properties : Bytes → Option Properties
  pub bind : Bytes → ℕ → Bound
  pub address : Bytes → ℕ → Bytes
  pub describe : Listening.Error → Bytes

-- The names that NewDeviceBackend knows.
abbrev pub knows_backend : Bytes → Bool
knows_backend name = bytes_eq name (codes "adb") || bytes_eq name (codes "hdc")

abbrev pub start_server_config : Settings → Config
start_server_config s = record {
  listen_host = s.listen_host;
  listen_start_port = pos s.listen_start_port;
  serial = s.serial;
  auth_mode = s.auth_mode;
  device_id = codes "";
}

abbrev pub restore_of : Settings → Server → BridgeRestore
restore_of s server = record {
  serial = s.serial;
  listen_host = s.listen_host;
  backend_name = s.backend_name;
  adb_server = s.adb_server;
  hdc_server = s.hdc_server;
  auth_mode = s.auth_mode;
  device_id = server.device_id;
}

abbrev pub start_listened : Machine → Settings → Server → Listened → Prepared
start_listened machine s server (listening l) =
    let cfg : StartConfig = record {
      serial = s.serial;
      backend_name = s.backend_name;
      auth_mode = s.auth_mode;
      listen_addr = machine.address s.listen_host l;
    } in
    ok (cfg, l, restore_of s server)
start_listened machine s server (listen_failed e) = err e
start_listened machine s server (no_port p) = err (codes "no available listen port from " ++ itoa p)

-- NewServer and Listen, as Start calls them.
unfoldable pub prepare : Machine → Settings → Prepared
prepare machine s = elim (new_server (machine.properties s.serial) (start_server_config s)) [
  | err e ↦ err (machine.describe e)
  | ok server ↦ start_listened machine s server (listen machine.bind server)
]

abbrev pub adopt_server_config : BridgeRestore → Config
adopt_server_config r = record {
  listen_host = r.listen_host;
  listen_start_port = pos 0;
  serial = r.serial;
  auth_mode = r.auth_mode;
  device_id = r.device_id;
}

abbrev pub adopt_config : Machine → BridgeRestore → ℕ → StartConfig
adopt_config machine r l = record {
  serial = r.serial;
  backend_name = r.backend_name;
  auth_mode = r.auth_mode;
  listen_addr = machine.address r.listen_host l;
}

-- NewDeviceBackend and NewServer, as Adopt calls them with a listener.
unfoldable pub adopt_prepared : Machine → BridgeRestore → ℕ → Prepared
adopt_prepared machine r l =
    if not (knows_backend r.backend_name)
    then err (codes "unsupported backend")
    else elim (new_server (machine.properties r.serial) (adopt_server_config r)) [
      | err e ↦ err (machine.describe e)
      | ok server ↦ ok (adopt_config machine r l, l, r)
    ]

-- Adopt.
abbrev pub adopt : Machine → BridgeRestore → ℕ → Manager → Manager × Result Manager.Error BridgeInfo
adopt machine r l m = start r.serial (adopt_prepared machine r l) m
