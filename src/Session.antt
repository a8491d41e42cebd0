-- ===== src/Session.antt =====
-- internal/bridge/session.go: a session with one external adb client.
-- The map of services is an association list. A service stays in it until its goroutine has run
-- finish; what the goroutine of a service that is in no map may still do is not modelled.
pub mod Ids
pub mod Steps
pub mod Dispatch
pub mod Limits
pub mod Teardown
pub mod Authorization
use adb_tcp_bridge.Common.{
  ℕ, suc, ◌+◌, ◌%◌, ◌^◌, Bool, true, false, not, ◌&&◌, ◌||◌, Option, none, some, List, [], ◌∷◌,
  ◌++◌, map, Bytes, codes, cut_prefix, ltb, ◌==◌, if◌then◌else◌,
}
use adb_tcp_bridge.Wire.{
  Packet, cmd_sync, cmd_cnxn, cmd_open, cmd_okay, cmd_clse, cmd_wrte, cmd_auth, cmd_stls,
  auth_token, auth_signature, auth_rsa_public_key,
}
use adb_tcp_bridge.Service.{
  Link, Service, Phase, opening, answering, awaiting_open, new_service, write_packet, okay_packet,
}
use adb_tcp_bridge.Service
use adb_tcp_bridge.Reverse.{Device}
use adb_tcp_bridge.Reverse.Overlap.{Task}
use adb_tcp_bridge.Reverse

abbrev pub default_version : ℕ
default_version = 0x0100_0000

abbrev pub default_max_payload : ℕ
default_max_payload = 4096

-- 64 * 1024
abbrev pub max_write_payload : ℕ
max_write_payload = 0x1_0000

pub data AuthMode : Type 0 where
  auth_none accept_all accept_public_key : AuthMode

pub record Config : Type 0 where
  pub auth_mode : AuthMode
  pub device_id : Bytes
  pub device : Device

pub record Session : Type 0 where
  pub config : Config
  pub link : Link
  pub next_local_id : ℕ
  pub services : List (ℕ × Service)
  -- the services that close took out of the map
  pub ended : List Service
  pub reverse : Reverse.State
  -- the reverse commands that goroutines are at, by the id of the service they answer
  pub handlers : List (ℕ × Task)
  pub authorized : Bool
  pub version : ℕ
  pub token : Bytes
  -- the client's connection has not been closed
  pub conn_open : Bool

-- What handlePacket returns in place of nil.
pub data Error : Type 0 where
  link_error : Service.Error → Error
  tls_unsupported unknown_command rand_failed unsupported_auth : Error
  unauthorized_open invalid_service_name : Error

-- A new session on a connection that will take `budget` packets.
unfoldable pub new_session : Config → ℕ → Session
unfolding Reverse.new_state
new_session config budget = record {
  config = config;
  link = record {
    packets = [];
    budget = budget;
    closed = false;
    max_payload = default_max_payload;
    reports = [];
  };
  next_local_id = 1;
  services = [];
  ended = [];
  reverse = Reverse.new_state;
  handlers = [];
  authorized = false;
  version = default_version;
  token = [];
  conn_open = true;
}

-- The map of services.
unfoldable pub get : ℕ → List (ℕ × Service) → Option Service
get id [] = none
get id ((k, s) ∷ m) = if k == id then some s else get id m

unfoldable pub remove : ℕ → List (ℕ × Service) → List (ℕ × Service)
remove id [] = []
remove id ((k, s) ∷ m) = if k == id then remove id m else (k, s) ∷ remove id m

unfoldable pub put : ℕ → Service → List (ℕ × Service) → List (ℕ × Service)
unfolding remove
put id s m = (id, s) ∷ remove id m

-- The id that allocateLocalID leaves in nextLocalID: a uint32 that skips 0.
unfoldable pub next_id : ℕ → ℕ
next_id id = let n = (id + 1) % 2 ^ 32 in if n == 0 then 1 else n

unfoldable pub allocate_local_id : Session → ℕ × Session
unfolding next_id
allocate_local_id s = (s.next_local_id, record s { next_local_id = next_id s.next_local_id })

-- startService: the service, and the session that has it.
unfoldable pub start_service : Bytes → ℕ → Phase → Session → Service × Session
unfolding allocate_local_id put
start_service name remote phase s =
    let (id, s') = allocate_local_id s in
    let svc = new_service id remote name phase in
    (svc, record s' { services = put id svc s'.services })

abbrev pub of_link : Option Service.Error → Option Error
of_link none = none
of_link (some e) = some (link_error e)

-- session.writePacket
unfoldable pub send : Packet → Session → Session × Option Error
send p s = let (l, e) = write_packet p s.link in (record s { link = l }, of_link e)

-- `append([]byte(s.config.DeviceID), 0)`
unfoldable pub send_connection : Session → Session × Option Error
unfolding send
send_connection s =
    send
      (record {
        command = cmd_cnxn;
        arg0 = s.version;
        arg1 = s.link.max_payload;
        payload = s.config.device_id ++ (0 ∷ []);
      })
      s

-- The first argument is the outcome of rand.Read into the 20 bytes of the token.
unfoldable pub send_auth_challenge : Option Bytes → Session → Session × Option Error
unfolding send
send_auth_challenge none s = (s, some rand_failed)
send_auth_challenge (some token) s =
    send (record { command = cmd_auth; arg0 = auth_token; arg1 = 0; payload = token })
      (record s { token = token })

abbrev pub is_none : AuthMode → Bool
is_none auth_none = true
is_none _ = false

-- The fields that a CNXN sets.
unfoldable pub negotiate : Packet → Session → Session
negotiate p s =
    let limit = if ltb max_write_payload p.arg1 then max_write_payload else p.arg1 in
    record s {
      version = if ltb p.arg0 default_version then p.arg0 else default_version;
      link = record s.link { max_payload = if ltb 0 p.arg1 then limit else s.link.max_payload };
    }

unfoldable pub handle_connect : Option Bytes → Packet → Session → Session × Option Error
unfolding negotiate send_connection send_auth_challenge
handle_connect rand p s =
    let s' = negotiate p s in
    if is_none s.config.auth_mode
    then send_connection (record s' { authorized = true })
    else send_auth_challenge rand s'

unfoldable pub handle_auth : Packet → Session → Session × Option Error
unfolding send_connection
handle_auth p s =
    if is_none s.config.auth_mode
    then (s, none)
    else if p.arg0 == auth_signature || p.arg0 == auth_rsa_public_key
    then send_connection (record s { authorized = true })
    else (s, some unsupported_auth)

-- The name in front of the last byte, if that is 0.
unfoldable pub service_name : Bytes → Option Bytes
service_name [] = none
service_name (b ∷ []) = if b == 0 then some [] else none
service_name (b ∷ c ∷ bs) = elim (service_name (c ∷ bs)) [
  | none ↦ none
  | some name ↦ some (b ∷ name)
]

-- driveOpen: a name behind "reverse:" is answered locally.
unfoldable pub drive_phase : Bytes → Phase
drive_phase name = elim (cut_prefix (codes "reverse:") name) [
  | none ↦ opening
  | some command ↦ answering
]

unfoldable pub handle_open : Packet → Session → Session × Option Error
unfolding start_service service_name drive_phase
handle_open p s =
    if not s.authorized then (s, some unauthorized_open) else elim (service_name p.payload) [
      | none ↦ (s, some invalid_service_name)
      | some name ↦ ((start_service name p.arg0 (drive_phase name) s).1, none)
    ]

-- A method that changes a service in place.
abbrev pub update : ℕ → Service → Session → Session
update id svc s = record s { services = put id svc s.services }

unfoldable pub handle_okay : Packet → Session → Session × Option Error
handle_okay p s = elim (get p.arg1 s.services) [
  | none ↦ (s, none)
  | some svc ↦ (update p.arg1 (Service.ack p.arg0 svc) s, none)
]

-- handleWrite, with the outcome of service.write.
unfoldable pub written : ℕ → Session → Service × Option Service.Error → Session × Option Error
unfolding send
written id s (svc, some e) = (update id svc s, some (link_error e))
written id s (svc, none) = send (okay_packet svc) (update id svc s)

unfoldable pub handle_write : Packet → Session → Session × Option Error
handle_write p s = elim (get p.arg1 s.services) [
  | none ↦ (s, none)
  | some svc ↦ written p.arg1 s (Service.write_service p.payload svc)
]

unfoldable pub handle_close : Packet → Session → Session × Option Error
handle_close p s = elim (get p.arg1 s.services) [
  | none ↦ (s, none)
  | some svc ↦ (update p.arg1 (Service.close svc) s, none)
]

unfoldable pub handle_packet : Option Bytes → Packet → Session → Session × Option Error
handle_packet rand p s =
    if p.command == cmd_sync
    then send (record { command = cmd_sync; arg0 = 1; arg1 = p.arg1; payload = [] }) s
    else if p.command == cmd_cnxn
    then handle_connect rand p s
    else if p.command == cmd_auth
    then handle_auth p s
    else if p.command == cmd_stls
    then (s, some tls_unsupported)
    else if p.command == cmd_open
    then handle_open p s
    else if p.command == cmd_okay
    then handle_okay p s
    else if p.command == cmd_wrte
    then handle_write p s
    else if p.command == cmd_clse
    then handle_close p s
    else (s, some unknown_command)

abbrev pub close_all_services : List (ℕ × Service) → List Service
close_all_services = map (λ kv. Service.close kv.1)

-- session.close: the services are closed and forgotten, the reverse forwards are torn down, and
-- the connection is closed; a second call does nothing.
unfoldable pub close : Session → Session
close s = if s.link.closed then s else record s {
  link = record s.link { closed = true };
  services = [];
  ended = close_all_services s.services;
  reverse = Reverse.close_all s.config.device s.reverse;
  conn_open = false;
}
