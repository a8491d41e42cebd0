-- ===== src/Examples/Session.antt =====
-- Sessions.
use adb_tcp_bridge.Common.{
  ◌+◌, ◌-◌, ◌%◌, ◌≡◌, refl, true, false, none, some, List, [], ◌∷◌, ◌++◌, arith, codes, err,
}
use adb_tcp_bridge.Stream.{new_writer, write}
use adb_tcp_bridge.Wire.{Packet, cmd_cnxn, cmd_open, cmd_wrte}
use adb_tcp_bridge.Service.{Service, reading, new_service, backend_write_failed, write_service}
use adb_tcp_bridge.Reverse.{response}
use adb_tcp_bridge.Session.{
  Config, Session, accept_all, new_session, get, allocate_local_id, handle_packet,
}
use adb_tcp_bridge.Session.Ids.{allocated, allocate_local_id_lem}
use adb_tcp_bridge.Session.Steps.{Event, received, step, run}
use adb_tcp_bridge.Session.Limits.{IsWithin, new_session-IsWithin, handle_packet-IsWithin}
use adb_tcp_bridge.Session.Authorization.{IsLocked, run-new_session-IsLocked}
use adb_tcp_bridge.Session.Teardown.{AllDone, write_failure_ends_session}

abbrev config : Config
config = record {
  auth_mode = accept_all;
  device_id = codes "device::";
  device = record { has_backend = false; respond = λ n command. response []; listen = λ n. err [] };
}

abbrev connect : Packet
connect = record {
  command = cmd_cnxn;
  arg0 = 0x0100_0001;
  arg1 = 0x10_0000;
  payload = codes "host::";
}

abbrev shell : Packet
shell = record { command = cmd_open; arg0 = 7; arg1 = 0; payload = codes "shell:" ++ (0 ∷ []) }

-- A client that opens a shell after its CNXN, without an AUTH.
abbrev impatient : List Event
impatient = received (some []) connect ∷ received (some []) shell ∷ []

run-new_session-IsLocked_example : IsLocked config (run impatient (new_session config 9))
run-new_session-IsLocked_example = run-new_session-IsLocked config 9 impatient (refl, (refl, tt))

handle_packet-IsWithin_example : IsWithin (handle_packet (some []) connect (new_session config 9)).0
handle_packet-IsWithin_example =
    handle_packet-IsWithin (some []) connect (new_session config 9) (new_session-IsWithin config 9)

-- The last id before the wrap.
abbrev last_id : Session
last_id = record (new_session config 9) { next_local_id = 0xffff_ffff }

allocate_local_id_lem_example :
    (allocate_local_id (allocated 1 last_id)).0 ≡ (last_id.next_local_id - 1 + 1) % 0xffffffff + 1
allocate_local_id_lem_example = allocate_local_id_lem 1 last_id (omega arith) (omega arith)

-- A shell whose device takes no more data.
abbrev stuck : Service
stuck = record (new_service 1 7 (codes "shell:") reading) {
  conn = some (record { out = new_writer 0; is_open = true });
}

abbrev shell_session : Session
shell_session = record (new_session config 9) { services = (1, stuck) ∷ []; authorized = true }

abbrev list_files : Packet
list_files = record { command = cmd_wrte; arg0 = 7; arg1 = 1; payload = codes "ls" }

stuck_found : get 1 shell_session.services ≡ some stuck
unfolding get
stuck_found = refl

stuck_fails : write_service (codes "ls") stuck ≡ (stuck, some backend_write_failed)
unfolding write_service write new_service
stuck_fails = refl

write_failure_ends_session_example :
    let s' = step (received none list_files) shell_session in
    (s'.link.closed ≡ true)
    × (s'.conn_open ≡ false)
    × (s'.services ≡ [])
    × AllDone s'.ended
    × (s'.link.packets ≡ shell_session.link.packets)
unfolding new_session
write_failure_ends_session_example =
    write_failure_ends_session none list_files shell_session stuck stuck backend_write_failed refl
      refl stuck_found stuck_fails
