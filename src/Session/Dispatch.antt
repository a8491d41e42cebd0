-- ===== src/Session/Dispatch.antt =====
-- A property of what every handler does holds of what handlePacket does.
use adb_tcp_bridge.Common.{◌≡◌, true, Option, some, [], Bytes, ◌==◌, if_elim}
use adb_tcp_bridge.Wire.{
  Packet, cmd_sync, cmd_cnxn, cmd_open, cmd_okay, cmd_clse, cmd_wrte, cmd_auth, cmd_stls,
}
use adb_tcp_bridge.Session.{
  Session, Error, tls_unsupported, unknown_command, send, handle_connect, handle_auth, handle_open,
  handle_okay, handle_write, handle_close, handle_packet,
}

abbrev pub sync_reply : Packet → Packet
sync_reply p = record { command = cmd_sync; arg0 = 1; arg1 = p.arg1; payload = [] }

module _ {ℓ} (P : Session × Option Error → Type ℓ) (rand : Option Bytes) (p : Packet)
    (s : Session) where
  pub handle_packet_elim :
      P (send (sync_reply p) s)
      → (p.command == cmd_cnxn ≡ true → P (handle_connect rand p s))
      → (p.command == cmd_auth ≡ true → P (handle_auth p s))
      → P (handle_open p s)
      → P (handle_okay p s)
      → P (handle_write p s)
      → P (handle_close p s)
      → ((e : Error) → P (s, some e))
      → P (handle_packet rand p s)
  unfolding handle_packet
  handle_packet_elim sync cnxn auth open' okay wrte clse fail =
      if_elim P (p.command == cmd_sync) (λ _. sync)
        (λ _. if_elim P (p.command == cmd_cnxn) cnxn (λ _.
          if_elim P (p.command == cmd_auth) auth (λ _.
            if_elim P (p.command == cmd_stls) (λ _. fail tls_unsupported)
              (λ _.
                if_elim P (p.command == cmd_open) (λ _. open')
                  (λ _.
                    if_elim P (p.command == cmd_okay) (λ _. okay)
                      (λ _.
                        if_elim P (p.command == cmd_wrte) (λ _. wrte)
                          (λ _.
                            if_elim P (p.command == cmd_clse) (λ _. clse)
                              (λ _. fail unknown_command))))))))
