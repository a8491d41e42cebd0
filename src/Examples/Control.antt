-- ===== src/Examples/Control.antt =====
-- The control socket of the daemon, its client, and the search for a port.
use adb_tcp_bridge.Common.{
  ℕ, ◌+◌, ◌≤◌, ◌≡◌, refl, true, false, none, inr, List, [], ◌∷◌, ◌++◌, arith, Bytes, codes,
  bytes_eq, ok, err, ◌==◌, if◌then◌else◌,
}
use adb_tcp_bridge.Strconv.Decimal.{pos}
use adb_tcp_bridge.Listening.{
  Config, Server, Bound, in_use, listener, checked_port, new_server, listen,
}
use adb_tcp_bridge.Listening.Ports.{comes_to, listen-comes_to}
use adb_tcp_bridge.Daemon.Manager.{new_manager}
use adb_tcp_bridge.Daemon.Handler.{Request, Response, Platform, protocol_version, accept}
use adb_tcp_bridge.Daemon.Handler
use adb_tcp_bridge.Daemon.Accepting.{
  Runner, Event, looks, accepts, handles, checking, accepting, run,
}
use adb_tcp_bridge.Daemon.Accepting.Late.{
  count_accepted, in_accept, count_accepted-restarting, late_probe,
}
use adb_tcp_bridge.Client.{Rounds, no_connection, wait_ready}
use adb_tcp_bridge.Client.Waiting.{Ended, wait_ready-Ended}

abbrev unix : Platform
unix = record { supports_restart = true; prepare = λ s. err (codes "no port") }

abbrev request : Bytes → Request
request op = record {
  op = op;
  serial = [];
  host = [];
  port = 0;
  backend = [];
  server = [];
  hdc_server = [];
  auth = [];
  binary = [];
}

abbrev server : Handler.Server
server = record {
  manager = new_manager;
  restarting = false;
  handoffs = [];
  is_cancelled = false;
  first_own = 0;
  log_path = [];
}

abbrev restarting : Runner
restarting = record {
  server = record server { restarting = true };
  loop = accepting;
  pending = [];
  answered = [];
}

abbrev events : List Event
events =
    accepts (request (codes "list")) ∷ looks ∷ accepts (request (codes "list")) ∷ handles 0 ∷ []

count_accepted-restarting_example :
    count_accepted unix events restarting ≤ in_accept restarting.loop
count_accepted-restarting_example = count_accepted-restarting unix events restarting refl

late_probe_example :
    let r : Runner = record {
      server = server;
      loop = checking;
      pending = request (codes "restart") ∷ [];
      answered = [];
    } in
    let r' =
      run unix (looks ∷ handles 0 ∷ accepts (request (codes "version")) ∷ handles 0 ∷ []) r in
    (r'.server.restarting ≡ true)
    × (r'.answered
        ≡ [] ++ (accept server ∷ record (accept server) { version = protocol_version } ∷ []))
late_probe_example =
    late_probe unix (request (codes "restart")) (request (codes "version")) server [] refl refl refl
      refl

-- No daemon ever answers.
abbrev rounds : Rounds
rounds = record { meets = λ k. no_connection; takes = λ k. 5; cancels = λ k. false }

wait_ready-Ended_example : Ended rounds 7 (7 + 300_000_000) (wait_ready rounds 300_000_000 3 7)
wait_ready-Ended_example = wait_ready-Ended rounds 300_000_000 2 7 (omega arith)

-- The first port is taken.
abbrev bind : Bytes → ℕ → Bound
bind host port = if port == 40000 then in_use else listener port

abbrev config : Config
config = record {
  listen_host = [];
  listen_start_port = pos 40000;
  serial = codes "dev1";
  auth_mode = [];
  device_id = codes "device::";
}

abbrev bridge : Server
bridge = record {
  listen_host = codes "0.0.0.0";
  listen_start_port = 40000;
  serial = codes "dev1";
  auth_mode = codes "accept-all";
  device_id = codes "device::";
}

accepted : new_server none config ≡ ok bridge
unfolding new_server checked_port bytes_eq
accepted = refl

listen-comes_to_example : listen bind bridge ≡ comes_to bind bridge 40001
listen-comes_to_example =
    listen-comes_to bind none config bridge 40001 accepted (omega arith)
      (λ q a b. let here : q ≡ 40000 = omega (arith, a, b) in rw here refl) (inr refl)
