-- ===== src/Session/Limits.antt =====
-- The protocol version and the payload limit that a session agrees to.
use adb_tcp_bridge.Common.{
  ℕ, ◌≤◌, ◌<◌, not, ◌||◌, Option, none, some, arith, Bytes, ◌==◌, if_elim, Option-cases, inl, inr,
}
use adb_tcp_bridge.Common.Word.{IsU32}
use adb_tcp_bridge.Wire.{Packet, auth_signature, auth_rsa_public_key}
use adb_tcp_bridge.Service.{Service, Link, write_packet}
use adb_tcp_bridge.Service
use adb_tcp_bridge.Session.{
  Session, Config, Error, new_session, default_version, max_write_payload, next_id, get, send,
  send_connection, send_auth_challenge, is_none, negotiate, handle_connect, handle_auth,
  handle_open, handle_okay, written, handle_write, handle_close, handle_packet, start_service,
  service_name,
}
use adb_tcp_bridge.Session.Dispatch.{handle_packet_elim}

-- The version is at most the classic one, the payload limit lies between 1 and 64 KiB, and the next
-- local id is a uint32 other than 0.
pub record IsWithin (s : Session) : Type 0 where
  pub version_le : s.version ≤ default_version
  pub payload_pos : 0 < s.link.max_payload
  pub payload_le : s.link.max_payload ≤ max_write_payload
  pub id_pos : 0 < s.next_local_id
  pub id_fits : IsU32 s.next_local_id

abbrev Within : Session × Option Error → Type 0
Within r = IsWithin r.0

pub new_session-IsWithin : (config : Config) (budget : ℕ) → IsWithin (new_session config budget)
unfolding new_session
new_session-IsWithin config budget = omega arith

send-Within : (p : Packet) (s : Session) → IsWithin s → Within (send p s)
unfolding send write_packet
send-Within p s w = ground arith

negotiate-IsWithin : (p : Packet) (s : Session) → IsWithin s → IsWithin (negotiate p s)
unfolding negotiate
negotiate-IsWithin p s w = ground arith

challenge-Within :
    (rand : Option Bytes) (s : Session) → IsWithin s → Within (send_auth_challenge rand s)
unfolding send_auth_challenge
challenge-Within none s w = w
challenge-Within (some token) s w = send-Within _ _ (omega arith)

connect-Within :
    (rand : Option Bytes) (p : Packet) (s : Session) → IsWithin s → Within (handle_connect rand p s)
unfolding handle_connect send_connection
connect-Within rand p s w =
    let n : IsWithin (negotiate p s) = negotiate-IsWithin p s w in
    if_elim Within (is_none s.config.auth_mode) (λ _. send-Within _ _ (omega arith))
      (λ _. challenge-Within rand (negotiate p s) n)

auth-Within : (p : Packet) (s : Session) → IsWithin s → Within (handle_auth p s)
unfolding handle_auth send_connection
auth-Within p s w =
    if_elim Within (is_none s.config.auth_mode) (λ _. w)
      (λ _.
        if_elim Within (p.arg0 == auth_signature || p.arg0 == auth_rsa_public_key)
          (λ _. send-Within _ _ (omega arith)) (λ _. w))

open-Within : (p : Packet) (s : Session) → IsWithin s → Within (handle_open p s)
unfolding handle_open start_service next_id
open-Within p s w =
    if_elim Within (not s.authorized) (λ _. w)
      (λ _. elim (Option-cases (service_name p.payload)) [
        | inl e ↦ rw e w
        | inr (name, e) ↦ rw e (ground arith)
      ])

okay-Within : (p : Packet) (s : Session) → IsWithin s → Within (handle_okay p s)
unfolding handle_okay
okay-Within p s w = ground arith

written-Within :
    (id : ℕ) (s : Session) (r : Service × Option Service.Error)
    → IsWithin s
    → Within (written id s r)
unfolding written
written-Within id s (svc, some e) w = omega arith
written-Within id s (svc, none) w = send-Within _ _ (omega arith)

write-Within : (p : Packet) (s : Session) → IsWithin s → Within (handle_write p s)
write-Within p s w =
    unfold handle_write in
    elim (Option-cases (get p.arg1 s.services)) [
      | inl e ↦ rw (e, handle_write) w
      | inr (svc, e) ↦
          rw (e, handle_write) (written-Within p.arg1 s (Service.write_service p.payload svc) w)
    ]

clse-Within : (p : Packet) (s : Session) → IsWithin s → Within (handle_close p s)
unfolding handle_close
clse-Within p s w = ground arith

-- Whatever packet comes in, and whether it is handled or refused, the session keeps to a version of
-- at most 0x01000000, a payload limit between 1 and 65536 and a next local id between 1 and
-- 2 ^ 32 - 1.
pub handle_packet-IsWithin :
    (rand : Option Bytes) (p : Packet) (s : Session)
    → IsWithin s
    → IsWithin (handle_packet rand p s).0
handle_packet-IsWithin rand p s w =
    handle_packet_elim Within rand p s (send-Within _ s w) (λ _. connect-Within rand p s w)
      (λ _. auth-Within p s w) (open-Within p s w) (okay-Within p s w) (write-Within p s w)
      (clse-Within p s w) (λ _. w)
