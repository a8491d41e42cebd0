-- ===== src/Session/Authorization.antt =====
-- What a client can do before it is authorized.
use adb_tcp_bridge.Common.{
  ℕ, ◌≡◌, refl, ap, ◌⊎◌, inl, inr, Bool, true, false, not, ◌&&◌, ◌||◌, Option, none, some, List, [],
  ◌∷◌, arith, Bytes, ◌==◌, if◌then◌else◌, if_elim, All, All-append,
}
use adb_tcp_bridge.Wire.{Packet, cmd_sync, cmd_cnxn, cmd_auth, auth_signature, auth_rsa_public_key}
use adb_tcp_bridge.Service.{Link, write_packet}
use adb_tcp_bridge.Reverse
use adb_tcp_bridge.Reverse.Draining.{close_all-no_mappings}
use adb_tcp_bridge.Session.{
  Session, Config, AuthMode, Error, new_session, get, send, send_auth_challenge, is_none, negotiate,
  handle_connect, handle_auth, handle_open, handle_okay, handle_write, handle_close, handle_packet,
  close,
}
use adb_tcp_bridge.Session.Dispatch.{handle_packet_elim}
use adb_tcp_bridge.Session.Steps.{
  Event, received, ended, task, answer, accepted, end_on_error, handler, step, run,
}

-- The packets that authorize a client: an AUTH with a signature or a public key, and in the mode
-- without authentication a CNXN.
abbrev pub is_credential : AuthMode → Packet → Bool
is_credential mode p =
    if is_none mode
    then p.command == cmd_cnxn
    else p.command == cmd_auth && (p.arg0 == auth_signature || p.arg0 == auth_rsa_public_key)

abbrev pub NoCredential : AuthMode → Event → Type 0
NoCredential mode (received rand p) = is_credential mode p ≡ false
NoCredential mode _ = Unit

-- SYNC and AUTH are all that a session may say before.
abbrev pub IsGreeting : Packet → Type 0
IsGreeting p = (p.command ≡ cmd_sync) ⊎ (p.command ≡ cmd_auth)

pub record IsLocked (config : Config) (s : Session) : Type 0 where
  pub same_config : s.config ≡ config
  pub not_authorized : s.authorized ≡ false
  pub no_services : s.services ≡ []
  pub no_forwards : s.reverse.mappings ≡ []
  pub no_handlers : s.handlers ≡ []
  pub greetings : All IsGreeting s.link.packets

module _ (config : Config) where
  abbrev Locked : Session × Option Error → Type 0
  Locked r = IsLocked config r.0

  write_packet-greetings :
      (p : Packet) (l : Link)
      → IsGreeting p
      → All IsGreeting l.packets
      → All IsGreeting (write_packet p l).0.packets
  unfolding write_packet
  write_packet-greetings p l g h =
      ground (arith, All-append IsGreeting l.packets (p ∷ []) h (g, tt))

  send-Locked : (p : Packet) (s : Session) → IsGreeting p → IsLocked config s → Locked (send p s)
  unfolding send
  send-Locked p s g k = record {
    same_config = k.same_config;
    not_authorized = k.not_authorized;
    no_services = k.no_services;
    no_forwards = k.no_forwards;
    no_handlers = k.no_handlers;
    greetings = write_packet-greetings p s.link g k.greetings;
  }

  challenge-Locked :
      (rand : Option Bytes) (s : Session) → IsLocked config s → Locked (send_auth_challenge rand s)
  unfolding send_auth_challenge
  challenge-Locked none s k = k
  challenge-Locked (some token) s k = send-Locked _ _ (inr refl) (ground arith)

  negotiate-IsLocked :
      (p : Packet) (s : Session) → IsLocked config s → IsLocked config (negotiate p s)
  unfolding negotiate
  negotiate-IsLocked p s k = ground arith

  connect-Locked :
      (rand : Option Bytes) (p : Packet) (s : Session)
      → is_none config.auth_mode ≡ false
      → IsLocked config s
      → Locked (handle_connect rand p s)
  unfolding handle_connect
  connect-Locked rand p s m k =
      if_elim Locked (is_none s.config.auth_mode) (λ e. cc (m, e, k.same_config))
        (λ _. challenge-Locked rand (negotiate p s) (negotiate-IsLocked p s k))

  auth-Locked :
      (p : Packet) (s : Session)
      → is_none config.auth_mode ≡ true
        ⊎ (p.arg0 == auth_signature || p.arg0 == auth_rsa_public_key) ≡ false
      → IsLocked config s
      → Locked (handle_auth p s)
  unfolding handle_auth
  auth-Locked p s m k =
      if_elim Locked (is_none s.config.auth_mode) (λ _. k)
        (λ e.
          if_elim Locked (p.arg0 == auth_signature || p.arg0 == auth_rsa_public_key)
            (λ f. ground (arith, ap (λ (c : Config). is_none c.auth_mode) k.same_config)) (λ _. k))

  no_service : (id : ℕ) (s : Session) → IsLocked config s → get id s.services ≡ none
  unfolding get
  no_service id s k = rw k.no_services

  open-Locked : (p : Packet) (s : Session) → IsLocked config s → Locked (handle_open p s)
  unfolding handle_open
  open-Locked p s k = if_elim Locked (not s.authorized) (λ _. k) (λ e. cc (e, k.not_authorized))

  okay-Locked : (p : Packet) (s : Session) → IsLocked config s → Locked (handle_okay p s)
  okay-Locked p s k = unfold handle_okay in rw (no_service p.arg1 s k, handle_okay) k

  write-Locked : (p : Packet) (s : Session) → IsLocked config s → Locked (handle_write p s)
  write-Locked p s k = unfold handle_write in rw (no_service p.arg1 s k, handle_write) k

  clse-Locked : (p : Packet) (s : Session) → IsLocked config s → Locked (handle_close p s)
  clse-Locked p s k = unfold handle_close in rw (no_service p.arg1 s k, handle_close) k

  packet-Locked :
      (rand : Option Bytes) (p : Packet) (s : Session)
      → is_credential config.auth_mode p ≡ false
      → IsLocked config s
      → Locked (handle_packet rand p s)
  packet-Locked rand p s n k =
      handle_packet_elim Locked rand p s (send-Locked _ s (inl refl) k)
        (λ e. connect-Locked rand p s (ground arith) k) (λ e. auth-Locked p s (ground arith) k)
        (open-Locked p s k) (okay-Locked p s k) (write-Locked p s k) (clse-Locked p s k) (λ _. k)

  close-IsLocked : (s : Session) → IsLocked config s → IsLocked config (close s)
  unfolding close
  close-IsLocked s k = ground (arith, close_all-no_mappings s.config.device s.reverse k.no_forwards)

  end_on_error-IsLocked : (r : Session × Option Error) → Locked r → IsLocked config (end_on_error r)
  unfolding end_on_error
  end_on_error-IsLocked (s, none) k = k
  end_on_error-IsLocked (s, some e) k = close-IsLocked s k

  no_forward :
      (key : Bytes) (s : Session) → IsLocked config s → Reverse.lookup key s.reverse.mappings ≡ none
  unfolding Reverse.lookup
  no_forward key s k = rw k.no_forwards

  no_handler : (id : ℕ) (s : Session) → IsLocked config s → handler id s.handlers ≡ none
  unfolding handler
  no_handler id s k = rw k.no_handlers

  step-IsLocked :
      (e : Event) (s : Session)
      → NoCredential config.auth_mode e
      → IsLocked config s
      → IsLocked config (step e s)
  unfolding step
  step-IsLocked (received rand p) s n k =
      if_elim (IsLocked config) s.link.closed (λ _. k)
        (λ _. end_on_error-IsLocked _ (packet-Locked rand p s n k))
  step-IsLocked ended s n k = close-IsLocked s k
  step-IsLocked (task id e) s n k = rw (no_service id s k, step) k
  step-IsLocked (answer id) s n k = rw (no_handler id s k, step) (rw (no_service id s k) k)
  step-IsLocked (accepted local c) s n k = rw (no_forward local s k, step) k

  run-IsLocked :
      (es : List Event) (s : Session)
      → All (NoCredential config.auth_mode) es
      → IsLocked config s
      → IsLocked config (run es s)
  unfolding run
  run-IsLocked [] s n k = k
  run-IsLocked (e ∷ es) s n k = run-IsLocked es (step e s) n.1 (step-IsLocked e s n.0 k)

-- As long as a client has presented no credential (in the mode without authentication, no CNXN;
-- in the others, no AUTH with a signature or a public key), and whatever else happens, the session
-- is not authorized, it has no service, no reverse forward and no reverse command under way, and all
-- that it has sent are SYNC and AUTH packets.
pub run-new_session-IsLocked :
    (config : Config) (budget : ℕ) (es : List Event)
    → All (NoCredential config.auth_mode) es
    → IsLocked config (run es (new_session config budget))
unfolding new_session
run-new_session-IsLocked config budget es n = run-IsLocked config es _ n (ground arith)
