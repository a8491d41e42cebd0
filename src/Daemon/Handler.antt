-- ===== src/Daemon/Handler.antt =====
-- internal/daemon/handler.go: the requests on the daemon's control socket.
-- A request is handled as a whole before the next; the code handles connections concurrently, and a
-- start that is under way when a restart is accepted is not modelled. A request and a response are
-- values here: the JSON between them and the socket is left out. What
-- NewServer and Listen would find for the settings of a start is a parameter, and so is whether the
-- platform supports a restart. An error text of the code is a constructor of `Reason`.
pub mod Freeze
use adb_tcp_bridge.Common.{
  ℕ, suc, Bool, true, false, not, ◌&&◌, Option, none, some, List, [], ◌∷◌, ◌++◌, Bytes, codes,
  bytes_eq, Result, ok, err, ltb, ◌==◌, if◌then◌else◌,
}
use adb_tcp_bridge.Daemon.Manager.{BridgeInfo, Item, Manager, Prepared, start, stop, list, status}
use adb_tcp_bridge.Daemon.Manager

-- control.Request
pub record Request : Type 0 where
  pub op : Bytes
  pub serial : Bytes
  pub host : Bytes
  pub port : ℕ
  pub backend : Bytes
  pub server : Bytes
  pub hdc_server : Bytes
  pub auth : Bytes
  pub binary : Bytes

pub data Reason : Type 0 where
  restart_in_progress : Reason
  restart_unsupported : Reason
  already_restarting : Reason
  serial_missing : Reason
  unsupported_backend : Bytes → Reason
  manager_error : Manager.Error → Reason
  unknown_op : Reason

-- control.Response; one with `error` none has OK set.
pub record Response : Type 0 where
  pub error : Option Reason
  pub version : ℕ
  pub bridges : List BridgeInfo
  pub bridge : Option BridgeInfo
  pub log_path : Bytes

-- The daemon's Server. `handoffs` holds the binaries of the handoffs that were begun. Bridges with an
-- id from `first_own` on were started by this daemon, under the context of its Run; those before were
-- adopted from another daemon, before Run and under a context that a shutdown leaves alone.
pub record Server : Type 0 where
  pub manager : Manager
  pub restarting : Bool
  pub handoffs : List Bytes
  pub is_cancelled : Bool
  pub first_own : ℕ
  pub log_path : Bytes

-- The settings of a start, after the defaults were filled in.
pub record Settings : Type 0 where
  pub serial : Bytes
  pub listen_host : Bytes
  pub listen_start_port : ℕ
  pub backend_name : Bytes
  pub adb_server : Bytes
  pub hdc_server : Bytes
  pub auth_mode : Bytes

pub record Platform : Type 0 where
  pub supports_restart : Bool
  pub prepare : Settings → Prepared

abbrev pub protocol_version : ℕ
protocol_version = 1

-- `Response{OK: false, Error: …}`
abbrev pub refuse : Reason → Response
refuse e = record { error = some e; version = 0; bridges = []; bridge = none; log_path = [] }

-- `Response{OK: true, LogPath: s.logPath}`
abbrev pub accept : Server → Response
accept s = record { error = none; version = 0; bridges = []; bridge = none; log_path = s.log_path }

-- `if value == "" { value = fallback }`
abbrev or_default : Bytes → Bytes → Bytes
or_default value fallback = if bytes_eq value [] then fallback else value

-- 127.0.0.1:8710 is the default address of hdcserver.
unfoldable pub settings : Request → Settings
settings r = record {
  serial = r.serial;
  listen_host = or_default r.host (codes "0.0.0.0");
  listen_start_port = if r.port == 0 then 35555 else r.port;
  backend_name = or_default r.backend (codes "adb");
  adb_server = or_default r.server (codes "127.0.0.1:5037");
  hdc_server = or_default r.hdc_server (codes "127.0.0.1:8710");
  auth_mode = or_default r.auth (codes "accept-all");
}

-- NewDeviceBackend knows these names.
abbrev pub is_backend : Bytes → Bool
is_backend name = if bytes_eq name (codes "adb") then true else bytes_eq name (codes "hdc")

abbrev pub started : Server → Manager × Result Manager.Error BridgeInfo → Server × Response
started s (m, err e) = (record s { manager = m }, refuse (manager_error e))
started s (m, ok info) = (record s { manager = m }, record (accept s) { bridge = some info })

unfoldable pub handle_start : Platform → Request → Server → Server × Response
handle_start platform r s =
    let cfg = settings r in
    if bytes_eq r.serial []
    then (s, refuse serial_missing)
    else if not (is_backend cfg.backend_name)
    then (s, refuse (unsupported_backend cfg.backend_name))
    else started s (start cfg.serial (platform.prepare cfg) s.manager)

abbrev pub stopped : Server → Manager × Option Manager.Error → Server × Response
stopped s (m, some e) = (record s { manager = m }, refuse (manager_error e))
stopped s (m, none) = (record s { manager = m }, accept s)

unfoldable pub handle_stop : Request → Server → Server × Response
handle_stop r s =
    if bytes_eq r.serial [] then (s, refuse serial_missing) else stopped s (stop r.serial s.manager)

unfoldable pub handle_restart : Platform → Request → Server → Server × Response
handle_restart platform r s =
    if not platform.supports_restart
    then (s, refuse restart_unsupported)
    else if s.restarting
    then (s, refuse already_restarting)
    else (record s { restarting = true; handoffs = r.binary ∷ s.handoffs }, accept s)

unfoldable pub handle_status : Request → Server → Response
handle_status r s =
    if bytes_eq r.serial []
    then record (accept s) { bridges = list s.manager }
    else elim (status r.serial s.manager) [
      | err e ↦ record (refuse (manager_error e)) { log_path = s.log_path }
      | ok info ↦ record (accept s) { bridge = some info }
    ]

unfoldable pub dispatch : Platform → Request → Server → Server × Response
dispatch platform r s =
    if bytes_eq r.op (codes "version")
    then (s, record (accept s) { version = protocol_version })
    else if bytes_eq r.op (codes "start")
    then if s.restarting then (s, refuse restart_in_progress) else handle_start platform r s
    else if bytes_eq r.op (codes "stop")
    then if s.restarting then (s, refuse restart_in_progress) else handle_stop r s
    else if bytes_eq r.op (codes "restart")
    then handle_restart platform r s
    else if bytes_eq r.op (codes "list")
    then (s, record (accept s) { bridges = list s.manager })
    else if bytes_eq r.op (codes "status")
    then (s, handle_status r s)
    else if bytes_eq r.op (codes "shutdown")
    then (s, accept s)
    else (s, refuse unknown_op)

unfoldable pub own_ids : ℕ → List (Bytes × Item) → List ℕ
own_ids first [] = []
own_ids first ((k, i) ∷ items) =
    let rest = own_ids first items in if ltb i.id first then rest else i.id ∷ rest

-- `s.cancel()`: the contexts of the bridges that were started under rootCtx are cancelled with it. They
-- leave the manager when their goroutines end, or with the StopAll at the end of Run.
abbrev pub cancel_root : Server → Server
cancel_root s = record s {
  is_cancelled = true;
  manager = record s.manager {
    cancelled = own_ids s.first_own s.manager.items ++ s.manager.cancelled;
  };
}

-- handleConn on a request that could be read: a shutdown cancels the daemon once it is answered.
unfoldable pub handle_request : Platform → Request → Server → Server × Response
unfolding own_ids
handle_request platform r s =
    let (s', resp) = dispatch platform r s in
    if bytes_eq r.op (codes "shutdown") && (elim resp.error [ none ↦ true | some _ ↦ false ])
    then (cancel_root s', resp)
    else (s', resp)
