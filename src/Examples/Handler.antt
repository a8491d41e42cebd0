-- ===== src/Examples/Handler.antt =====
-- The control requests of the daemon.
use adb_tcp_bridge.Common.{refl, true, false, List, [], ◌∷◌, Bytes, codes, bytes_eq, err, All}
use adb_tcp_bridge.Daemon.Manager.{new_manager}
use adb_tcp_bridge.Daemon.Handler.{Request, Server, Platform}
use adb_tcp_bridge.Daemon.Handler.Freeze.{serve, Frozen, IsNoShutdown, serve-Frozen}

abbrev unix : Platform
unix = record { supports_restart = true; prepare = λ s. err (codes "no port") }

abbrev request : Bytes → Bytes → Request
request op serial = record {
  op = op;
  serial = serial;
  host = [];
  port = 0;
  backend = [];
  server = [];
  hdc_server = [];
  auth = [];
  binary = codes "new";
}

-- A restart, and then a stop and another restart.
abbrev requests : List Request
requests =
    request (codes "restart") []
    ∷ request (codes "stop") (codes "dev1")
    ∷ request (codes "restart") []
    ∷ []

abbrev running : Server
running = record {
  manager = new_manager;
  restarting = false;
  handoffs = [];
  is_cancelled = false;
  first_own = 0;
  log_path = codes "log";
}

abbrev restarting : Server
restarting = record running { restarting = true; handoffs = codes "new" ∷ [] }

no_shutdown : All (IsNoShutdown unix) requests
unfolding bytes_eq
no_shutdown = (refl, (refl, (refl, tt)))

serve-Frozen_example : Frozen unix restarting (serve unix requests restarting)
serve-Frozen_example = serve-Frozen unix requests restarting no_shutdown refl
