-- ===== src/Listening.antt =====
-- internal/bridge/server.go: the settings of a bridge and the search for its port.
-- The device's properties and the binding of a port are parameters. Loggers are left out; each
-- connection is a session of Session.antt.
pub mod Ports
use adb_tcp_bridge.Common.{
  ℕ, zero, suc, ◌+◌, ◌-◌, Bool, true, false, not, ◌&&◌, ◌||◌, Option, none, some, [], ◌∷◌, ◌++◌,
  Bytes, codes, bytes_eq, Result, ok, err, ltb, ◌==◌, if◌then◌else◌,
}
use adb_tcp_bridge.Strconv.Decimal.{ℤ, pos, negsuc}

abbrev pub default_listen_host : Bytes
default_listen_host = codes "0.0.0.0"

abbrev pub default_listen_start_port : ℕ
default_listen_start_port = 35555

abbrev pub max_port : ℕ
max_port = 65535

abbrev pub auth_none : Bytes
auth_none = codes "none"

abbrev pub auth_accept_all : Bytes
auth_accept_all = codes "accept-all"

abbrev pub auth_accept_public_key : Bytes
auth_accept_public_key = codes "accept-publickey"

abbrev pub fallback_device_id : Bytes
fallback_device_id =
    codes
      "device::ro.product.name=adb_tcp_bridge;ro.product.model=ADB TCP Bridge;ro.product.device=adb_tcp_bridge;"

pub record Config : Type 0 where
  pub listen_host : Bytes
  pub listen_start_port : ℤ
  pub serial : Bytes
  pub auth_mode : Bytes
  pub device_id : Bytes

pub data Error : Type 0 where
  invalid_port : ℤ → Error
  serial_required : Error
  unsupported_auth : Bytes → Error

-- A server whose settings were checked.
pub record Server : Type 0 where
  pub listen_host : Bytes
  pub listen_start_port : ℕ
  pub serial : Bytes
  pub auth_mode : Bytes
  pub device_id : Bytes

-- `if value == "" { value = fallback }`
abbrev pub or_default : Bytes → Bytes → Bytes
or_default value fallback = if bytes_eq value [] then fallback else value

-- The port, with 0 for the default, if it is one that can be listened on.
unfoldable pub checked_port : ℤ → Option ℕ
checked_port (negsuc n) = none
checked_port (pos zero) = some default_listen_start_port
checked_port (pos (suc n)) = if ltb max_port (suc n) then none else some (suc n)

abbrev pub is_auth_mode : Bytes → Bool
is_auth_mode mode =
    bytes_eq mode auth_none
    || (bytes_eq mode auth_accept_all || bytes_eq mode auth_accept_public_key)

-- The properties by name, where one that is missing is empty.
abbrev pub Properties : Type 0
Properties = Bytes → Bytes

unfoldable pub format_device_id : Properties → Bytes
format_device_id properties =
    codes "device::ro.product.name="
    ++ (properties (codes "ro.product.name")
        ++ (codes ";ro.product.model="
            ++ (properties (codes "ro.product.model")
                ++ (codes ";ro.product.device="
                    ++ (properties (codes "ro.product.device") ++ codes ";")))))

abbrev pub load_device_id : Option Properties → Bytes
load_device_id none = fallback_device_id
load_device_id (some properties) = format_device_id properties

-- The rest of NewServer, after the port.
unfoldable pub new_server_at : Option Properties → Config → Option ℕ → Result Error Server
new_server_at properties cfg none = err (invalid_port cfg.listen_start_port)
new_server_at properties cfg (some port) =
    let mode = or_default cfg.auth_mode auth_accept_all in
    if bytes_eq cfg.serial []
    then err serial_required
    else if not (is_auth_mode mode)
    then err (unsupported_auth mode)
    else ok (record {
      listen_host = or_default cfg.listen_host default_listen_host;
      listen_start_port = port;
      serial = cfg.serial;
      auth_mode = mode;
      device_id = or_default cfg.device_id (load_device_id properties);
    })

-- NewServer, with what the backend's ReadProperties gives.
unfoldable pub new_server : Option Properties → Config → Result Error Server
unfolding new_server_at
new_server properties cfg = new_server_at properties cfg (checked_port cfg.listen_start_port)

-- What the operating system does with a port: a listener, EADDRINUSE, or another error.
pub data Bound : Type 0 where
  listener : ℕ → Bound
  in_use : Bound
  failed : Bytes → Bound

-- What Listen returns.
pub data Listened : Type 0 where
  listening : ℕ → Listened
  listen_failed : Bytes → Listened
  no_port : ℕ → Listened

-- A round of the loop, with what the higher ports give.
abbrev pub after_bind : Bound → Listened → Listened
after_bind (listener l) higher = listening l
after_bind in_use higher = higher
after_bind (failed e) higher = listen_failed e

-- The loop over the ports, of which k are left from `port` on.
unfoldable pub listen_ports : (Bytes → ℕ → Bound) → Server → ℕ → ℕ → Listened
listen_ports bind server zero port = no_port server.listen_start_port
listen_ports bind server (suc k) port =
    after_bind (bind server.listen_host port) (listen_ports bind server k (suc port))

unfoldable pub listen : (Bytes → ℕ → Bound) → Server → Listened
listen bind server =
    listen_ports bind server (suc max_port - server.listen_start_port) server.listen_start_port
