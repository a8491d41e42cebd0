-- ===== src/Examples/Takeover.antt =====
-- The handoff from a daemon with one bridge to a new one.
use adb_tcp_bridge.Common.{
  sym, subst, List, ◌+◌, ◌≡◌, ◌⊎◌, refl, true, false, none, some, [], ◌∷◌, map, arith, Bytes, codes,
  bytes_eq, ok, length,
}
use adb_tcp_bridge.Listening.{listener, checked_port, listen_ports, new_server, listen}
use adb_tcp_bridge.Daemon.Manager.{
  start, start_prepared, start_item, on_backend_result, update, delete, runs, BridgeRestore, Item,
  Manager, new_manager, StartConfig, make_item, snapshot, lookup,
}
use adb_tcp_bridge.Daemon.Manager.Bridges.{IsValid}
use adb_tcp_bridge.Daemon.Handler.{
  Request, handle_request, dispatch, handle_start, settings, Server,
}
use adb_tcp_bridge.Daemon.Preparing.{Machine, prepare}
use adb_tcp_bridge.Daemon.Handoff.{
  first_fd, fds_from, fd_spec, parse_inherit_fds, Inherited, restore_inherited, World, handoff,
}
use adb_tcp_bridge.Daemon.Handoff.Takeover.{Inherits, recorded}
use adb_tcp_bridge.Daemon.Handoff.Served.{
  Happening, asks, tries, happens, served, restore_inherited-served,
}
use adb_tcp_bridge.Daemon.Handoff.Outcome.{Completed, Aborted, handoff-Ends}

-- Every port is free, and no device tells its properties.
abbrev machine : Machine
machine = record {
  properties = λ serial. none;
  bind = λ host port. listener port;
  address = λ host l. host;
  describe = λ e. codes "refused";
}

abbrev config : StartConfig
config = record {
  serial = codes "dev1";
  backend_name = codes "adb";
  auth_mode = codes "none";
  listen_addr = codes "0.0.0.0";
}

abbrev restore : BridgeRestore
restore = record {
  serial = codes "dev1";
  listen_host = codes "0.0.0.0";
  backend_name = codes "adb";
  adb_server = codes "127.0.0.1:5037";
  hdc_server = codes "127.0.0.1:8710";
  auth_mode = codes "none";
  device_id =
      codes
        "device::ro.product.name=adb_tcp_bridge;ro.product.model=ADB TCP Bridge;ro.product.device=adb_tcp_bridge;";
}

abbrev bridge : Item
bridge = make_item config 40000 restore 0

abbrev one_bridge : Manager
one_bridge = record new_manager { items = (codes "dev1", bridge) ∷ []; next_item = 1 }

one_bridge-IsValid : IsValid one_bridge
unfolding make_item lookup
one_bridge-IsValid = (refl, refl, omega arith, refl, tt)

-- The descriptors are the listeners' numbers.
abbrev inherited : Inherited
inherited fd = ok fd

-- A client starts a bridge, and the device cannot be reached.
abbrev start_request : Request
start_request = record {
  op = codes "start";
  serial = codes "dev1";
  host = [];
  port = 40000;
  backend = [];
  server = [];
  hdc_server = [];
  auth = codes "none";
  binary = [];
}

abbrev happenings : List Happening
happenings = asks machine start_request ∷ tries (codes "dev1") false 5 ∷ []

abbrev empty : Server
empty = record {
  manager = new_manager;
  restarting = false;
  handoffs = [];
  is_cancelled = false;
  first_own = 0;
  log_path = [];
}

one_served : length (served happenings empty).manager.items ≡ 1
unfolding served happens handle_request dispatch handle_start settings start start_prepared
    start_item prepare new_server checked_port bytes_eq listen listen_ports on_backend_result update
    delete lookup runs new_manager
one_served = refl

restore_inherited-served_example :
    let m = (served happenings empty).manager in
    let fds = fds_from first_fd (length (snapshot m) + 2) in
    let r =
      restore_inherited machine inherited fds (map (λ item. item.0) (snapshot m)) new_manager in
    (parse_inherit_fds (fd_spec (length (snapshot m) + 2)) ≡ ok fds)
    × (r.1 ≡ ok 3)
    × ((j : Bytes) → recorded j r.0.items ≡ recorded j m.items)
restore_inherited-served_example =
    restore_inherited-served happenings empty machine inherited 3 refl (omega (arith, one_served))
      refl (subst (Inherits inherited 4) (sym one_served) ((4, refl), tt))

abbrev server : Server
server = record {
  manager = one_bridge;
  restarting = true;
  handoffs = [] ∷ [];
  is_cancelled = false;
  first_own = 0;
  log_path = [];
}

-- The new daemon closes the pipe without a byte.
abbrev world : World
world = record {
  has_executable = true;
  has_control = true;
  dups_control = true;
  dups = λ l. true;
  has_pipe = true;
  encode = λ rs. some (codes "state");
  starts = true;
  sets_deadline = true;
  ready_byte = none;
}

handoff-Ends_example :
    Completed world server (handoff world [] true server)
    ⊎ Aborted true server (handoff world [] true server)
handoff-Ends_example = handoff-Ends world true server []
