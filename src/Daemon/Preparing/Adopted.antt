-- ===== src/Daemon/Preparing/Adopted.antt =====
-- A bridge that Start made can be adopted.
use adb_tcp_bridge.Common.{
  ℕ, ◌≡◌, refl, sym, ap, subst, ◌∙◌, inl, inr, true, false, Option, none, some, [], arith, bytes_eq,
  ok, Result-cases,
}
use adb_tcp_bridge.Strconv.Decimal.{pos}
use adb_tcp_bridge.Listening.{
  Server, Properties, new_server, new_server_at, load_device_id, format_device_id, checked_port,
  Listened, listening, listen_failed, no_port, listen, or_default, is_auth_mode, auth_accept_all,
  default_listen_host, default_listen_start_port,
}
use adb_tcp_bridge.Daemon.Manager.{BridgeRestore, StartConfig}
use adb_tcp_bridge.Daemon.Handler.{Settings}
use adb_tcp_bridge.Daemon.Preparing.{
  Machine, knows_backend, start_server_config, restore_of, start_listened, prepare,
  adopt_server_config, adopt_config, adopt_prepared,
}

device_id_some : (properties : Option Properties) → bytes_eq (load_device_id properties) [] ≡ false
unfolding bytes_eq format_device_id
device_id_some none = refl
device_id_some (some p) = refl

-- What NewServer has found if it accepts the settings of a start.
record Accepted (properties : Option Properties) (s : Settings) (server : Server) : Type 0 where
  has_serial : bytes_eq s.serial [] ≡ false
  has_mode : is_auth_mode (or_default s.auth_mode auth_accept_all) ≡ true
  found_id : server.device_id ≡ load_device_id properties

new_server-Accepted :
    (properties : Option Properties) (s : Settings) (server : Server) (port : Option ℕ)
    → new_server_at properties (start_server_config s) port ≡ ok server
    → Accepted properties s server
unfolding new_server_at bytes_eq
new_server-Accepted properties s server none e = cc
new_server-Accepted properties s server (some n) e = record {
  has_serial = ground arith;
  has_mode = ground arith;
  found_id = ground arith;
}

-- The server that NewServer makes for a bridge that is adopted.
abbrev pub adopted_server : BridgeRestore → Server
adopted_server r = record {
  listen_host = or_default r.listen_host default_listen_host;
  listen_start_port = default_listen_start_port;
  serial = r.serial;
  auth_mode = or_default r.auth_mode auth_accept_all;
  device_id = r.device_id;
}

Accepted-again :
    (properties properties' : Option Properties) (s : Settings) (server : Server)
    → Accepted properties s server
    → let r = restore_of s server in
      new_server properties' (adopt_server_config r) ≡ ok (adopted_server r)
unfolding new_server new_server_at checked_port
Accepted-again properties properties' s server a =
    let found : bytes_eq server.device_id [] ≡ false =
      ap (λ id. bytes_eq id []) a.found_id ∙ device_id_some properties in
    rw (a.has_serial, a.has_mode, found) refl

-- What Start has prepared is a configuration of its settings, and a record of its server.
record Prepares (machine : Machine) (s : Settings) (cfg : StartConfig) (r : BridgeRestore)
    : Type 0 where
  server : Server
  accepts : Accepted (machine.properties s.serial) s server
  is_record : restore_of s server ≡ r
  same_serial : r.serial ≡ cfg.serial
  same_backend : r.backend_name ≡ cfg.backend_name
  same_mode : r.auth_mode ≡ cfg.auth_mode

start_listened-Prepares :
    (machine : Machine) (s : Settings) (server : Server) (found : Listened) (cfg : StartConfig)
    (l : ℕ) (r : BridgeRestore)
    → Accepted (machine.properties s.serial) s server
    → start_listened machine s server found ≡ ok (cfg, l, r)
    → Prepares machine s cfg r
start_listened-Prepares machine s server (listening k) cfg l r a e = record {
  server = server;
  accepts = a;
  is_record = cc;
  same_serial = cc;
  same_backend = cc;
  same_mode = cc;
}
start_listened-Prepares machine s server (listen_failed t) cfg l r a e = cc
start_listened-Prepares machine s server (no_port p) cfg l r a e = cc

prepare-Prepares :
    (machine : Machine) (s : Settings) (cfg : StartConfig) (l : ℕ) (r : BridgeRestore)
    → prepare machine s ≡ ok (cfg, l, r)
    → Prepares machine s cfg r
prepare-Prepares machine s cfg l r e =
    unfold prepare in
    elim (Result-cases (new_server (machine.properties s.serial) (start_server_config s))) [
      | inl (server, q) ↦
          start_listened-Prepares machine s server (listen machine.bind server) cfg l r
            (unfold new_server in
              new_server-Accepted (machine.properties s.serial) s server
                (checked_port (pos s.listen_start_port)) q)
            (sym (rw (q, prepare) refl) ∙ e)
      | inr (t, q) ↦ absurd (cc)
    ]

-- What Start has prepared, NewServer accepts again.
accepted_again :
    (machine machine' : Machine) (s : Settings) (cfg : StartConfig) (r : BridgeRestore)
    → Prepares machine s cfg r
    → (new_server (machine'.properties r.serial) (adopt_server_config r) ≡ ok (adopted_server r))
      × (bytes_eq r.serial [] ≡ false)
      × (r.backend_name ≡ s.backend_name)
accepted_again machine machine' s cfg r p =
    subst
      (λ (r' : BridgeRestore).
        (new_server (machine'.properties r'.serial) (adopt_server_config r')
          ≡ ok (adopted_server r'))
        × (bytes_eq r'.serial [] ≡ false)
        × (r'.backend_name ≡ s.backend_name))
      p.is_record
      (
        Accepted-again (machine.properties s.serial) (machine'.properties s.serial) s p.server
            p.accepts,
        p.accepts.has_serial,
        refl,
      )

-- Adopt of a record that Start has made.
pub adopt_prepared_lem :
    (machine machine' : Machine) (s : Settings) (cfg : StartConfig) (l l' : ℕ) (r : BridgeRestore)
    → prepare machine s ≡ ok (cfg, l, r)
    → knows_backend s.backend_name ≡ true
    → (adopt_prepared machine' r l' ≡ ok (adopt_config machine' r l', l', r))
      × (bytes_eq r.serial [] ≡ false)
adopt_prepared_lem machine machine' s cfg l l' r e k =
    let (again, serial, backend) =
      accepted_again machine machine' s cfg r (prepare-Prepares machine s cfg l r e) in
    let known : knows_backend r.backend_name ≡ true = ap knows_backend backend ∙ k in
    (unfold adopt_prepared in rw (known, again, adopt_prepared) refl, serial)

pub prepare-serial :
    (machine : Machine) (s : Settings) (cfg : StartConfig) (l : ℕ) (r : BridgeRestore)
    → prepare machine s ≡ ok (cfg, l, r)
    → r.serial ≡ cfg.serial
prepare-serial machine s cfg l r e = (prepare-Prepares machine s cfg l r e).same_serial

-- If Start has prepared a bridge of a backend that NewDeviceBackend knows, then on any other machine,
-- whatever its devices answer, Adopt of what Start recorded succeeds up to startItem, with the listener
-- that was handed over, the same serial, backend and authorization mode, and the same record: NewServer
-- accepts it again, and keeps the device id without asking the device.
pub adopt_prepared-prepare :
    (machine machine' : Machine) (s : Settings) (cfg : StartConfig) (l l' : ℕ) (r : BridgeRestore)
    → prepare machine s ≡ ok (cfg, l, r)
    → knows_backend s.backend_name ≡ true
    → (adopt_prepared machine' r l'
        ≡ ok (record cfg { listen_addr = machine'.address r.listen_host l' }, l', r))
      × (new_server (machine'.properties r.serial) (adopt_server_config r) ≡ ok (adopted_server r))
adopt_prepared-prepare machine machine' s cfg l l' r e k =
    let p = prepare-Prepares machine s cfg l r e in
    (
      (adopt_prepared_lem machine machine' s cfg l l' r e k).0
          ∙ rw (p.same_serial, p.same_backend, p.same_mode) refl,
      (accepted_again machine machine' s cfg r p).0,
    )
