-- ===== src/Examples/Manager.antt =====
-- The daemon's bridges.
use adb_tcp_bridge.Common.{
  ◌+◌, ◌≡◌, refl, true, false, none, some, [], ◌∷◌, arith, codes, bytes_eq, ok, leb, if◌then◌else◌,
}
use adb_tcp_bridge.Daemon.Manager.{
  BridgeRestore, Item, Manager, new_manager, lookup, StartConfig, make_item, start_item, serve_exit,
  stop, status, on_backend_result, reap_expired,
}
use adb_tcp_bridge.Daemon.Manager.Bridges.{IsValid}
use adb_tcp_bridge.Daemon.Manager.Restart.{late_exit_keeps_restarted}
use adb_tcp_bridge.Daemon.Manager.Failures.{fail_at, reap_expired-first_failure}

abbrev restore : BridgeRestore
restore = record {
  serial = codes "dev1";
  listen_host = codes "127.0.0.1";
  backend_name = codes "adb";
  adb_server = [];
  hdc_server = [];
  auth_mode = codes "none";
  device_id = [];
}

abbrev config : StartConfig
config = record {
  serial = codes "dev1";
  backend_name = codes "adb";
  auth_mode = codes "none";
  listen_addr = codes "127.0.0.1:5555";
}

-- A manager with one bridge.
abbrev bridge : Item
bridge = make_item config 4 restore 0

abbrev one_bridge : Manager
one_bridge = record new_manager { items = (codes "dev1", bridge) ∷ []; next_item = 1 }

one_bridge-IsValid : IsValid one_bridge
unfolding make_item lookup
one_bridge-IsValid = (refl, refl, omega arith, refl, tt)

bridge_found : lookup (codes "dev1") one_bridge.items ≡ some bridge
unfolding lookup bytes_eq
bridge_found = refl

names_differ : bytes_eq (codes "dev1") (codes "dev2") ≡ false
unfolding bytes_eq
names_differ = refl

late_exit_keeps_restarted_example :
    let (m', r) = start_item config 5 restore (stop (codes "dev1") one_bridge).0 in
    (r ≡ ok (make_item config 5 restore 1).info)
    × (status (codes "dev1") (serve_exit (codes "dev1") 0 4 m')
        ≡ ok (make_item config 5 restore 1).info)
unfolding make_item
late_exit_keeps_restarted_example =
    late_exit_keeps_restarted config 5 restore one_bridge bridge one_bridge-IsValid bridge_found

reap_expired-first_failure_example :
    let m' =
      fail_at (codes "dev1") (7 ∷ 9 ∷ []) (on_backend_result (codes "dev1") true 5 one_bridge) in
    lookup (codes "dev1") (reap_expired 600_000_000_008 m').items ≡ (
      if leb (7 + one_bridge.clean_after_failure) 600_000_000_008
      then none
      else some (record bridge { last_failed_at = some 7 }))
reap_expired-first_failure_example =
    reap_expired-first_failure (codes "dev1") 5 7 600_000_000_008 (9 ∷ []) one_bridge bridge
      one_bridge-IsValid bridge_found
