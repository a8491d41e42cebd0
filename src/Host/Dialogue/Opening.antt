-- ===== src/Host/Dialogue/Opening.antt =====
-- When the server accepts a command and when OpenService succeeds.
use adb_tcp_bridge.Common.{
  ◌≤◌, ◌<◌, ◌≡◌, refl, ap, ◌∙◌, inl, inr, Option, none, some, [], ◌∷◌, ◌++◌, arith, Bytes, codes,
  bytes_eq, bytes_eq→eq, ok, Result-cases, length, append_assoc,
}
use adb_tcp_bridge.Strconv.{value, hex4, parse_uint-hex4}
use adb_tcp_bridge.Stream.{read_full, read_full-append, read_full-splits, write}
use adb_tcp_bridge.Host.{
  Error, command_failed, max_frame_len, encode_frame, status_okay, status_fail, truncate,
  fail_message,
}
use adb_tcp_bridge.Host.Frames.{truncate-length, length-hex4}
use adb_tcp_bridge.Host.Dialogue.{
  Conn, read_message, read_failure, check_status, read_status, send_frame, send_command, opened,
  service_sent, transport_sent, open_service,
}

-- What a command that the server accepts does to the connection.
pub record Accepted (command : Bytes) (c c' : Conn) : Type 0 where
  pub frame : Bytes
  pub encoded : encode_frame command ≡ ok frame
  pub answered : c.incoming ≡ status_okay ++ c'.incoming
  pub sent : c'.outgoing.written ≡ c.outgoing.written ++ frame
  pub stays : c'.is_open ≡ c.is_open

check_status-none : (s : Bytes) (c : Conn) → check_status s c ≡ none → s ≡ status_okay
unfolding check_status
check_status-none s c h = ground (arith, bytes_eq→eq s status_okay)

read_status-none :
    (c c' : Conn)
    → read_status c ≡ (c', none)
    → (c.incoming ≡ status_okay ++ c'.incoming)
      × (c'.outgoing ≡ c.outgoing)
      × (c'.is_open ≡ c.is_open)
read_status-none c c' h = elim (Result-cases (read_full 4 c.incoming)) [
  | inr (e, r) ↦ absurd (unfold read_status in cc (r, h))
  | inl ((status, rest), r) ↦ after status rest r
]
  where
    after :
        (status rest : Bytes)
        → read_full 4 c.incoming ≡ ok (status, rest)
        → (c.incoming ≡ status_okay ++ c'.incoming)
          × (c'.outgoing ≡ c.outgoing)
          × (c'.is_open ≡ c.is_open)
    after status rest r =
        let c₁ : Conn = record c { incoming = rest } in
        let step : (let r : Conn × Option Error = (c₁, check_status status c₁) in r) ≡ (c', none) =
          unfold read_status in rw (r, read_status) at h in
        ground (arith, check_status-none status c₁, read_full-splits 4 c.incoming status rest r)

send_frame-none :
    (frame : Bytes) (c c' : Conn)
    → send_frame frame c ≡ (c', none)
    → (c.incoming ≡ status_okay ++ c'.incoming)
      × (c'.outgoing.written ≡ c.outgoing.written ++ frame)
      × (c'.is_open ≡ c.is_open)
unfolding send_frame write
send_frame-none frame c c' h =
    ground (arith, read_status-none (record c { outgoing = (write frame c.outgoing).0 }) c')

-- If SendCommand reports no error, it has written the command's frame and nothing else, and has
-- taken an OKAY and nothing else from the server's bytes.
pub send_command-Accepted :
    (command : Bytes) (c c' : Conn) → send_command command c ≡ (c', none) → Accepted command c c'
send_command-Accepted command c c' h = elim (Result-cases (encode_frame command)) [
  | inr (e, r) ↦ absurd (unfold send_command in cc (r, h))
  | inl (frame, r) ↦
      let (i, o, s) =
        send_frame-none frame c c' (unfold send_command in rw (r, send_command) at h) in
      record { frame = frame; encoded = r; answered = i; sent = o; stays = s }
]

service_sent-opened :
    (r : Conn × Option Error) (d : Conn) → service_sent r ≡ opened d → r ≡ (d, none)
service_sent-opened (c, some e) d h = cc
service_sent-opened (c, none) d h = ground arith

transport_sent-opened :
    (service : Bytes) (r : Conn × Option Error) (d : Conn)
    → transport_sent service r ≡ opened d
    → (c₁ : Conn) × (r ≡ (c₁, none)) × (send_command service c₁ ≡ (d, none))
unfolding transport_sent
transport_sent-opened service (c, some e) d h = cc
transport_sent-opened service (c, none) d h = (c, refl, service_sent-opened _ d h)

-- If OpenService returns a connection, the server answered OKAY to both commands and no byte of
-- the service's own stream was taken; exactly the frames of "host:transport:" with the serial and
-- of the service were written, in this order; and the connection is as open as it was dialled.
pub open_service_sound :
    (c d : Conn) (serial service : Bytes)
    → open_service (some c) serial service ≡ opened d
    → (transport frame : Bytes) × (encode_frame (codes "host:transport:" ++ serial) ≡ ok transport)
      × (encode_frame service ≡ ok frame)
      × (c.incoming ≡ status_okay ++ (status_okay ++ d.incoming))
      × (d.outgoing.written ≡ c.outgoing.written ++ (transport ++ frame))
      × (d.is_open ≡ c.is_open)
unfolding open_service
open_service_sound c d serial service h =
    let (c₁, s₁, s₂) = transport_sent-opened service _ d h in
    let a₁ = send_command-Accepted _ c c₁ s₁ in
    let a₂ = send_command-Accepted _ c₁ d s₂ in
    (
      a₁.frame,
      a₂.frame,
      a₁.encoded,
      a₂.encoded,
      a₁.answered ∙ ap (λ t. status_okay ++ t) a₂.answered,
      a₂.sent ∙ ap (λ t. t ++ a₂.frame) a₁.sent ∙ append_assoc c.outgoing.written a₁.frame a₂.frame,
      a₂.stays ∙ a₁.stays,
    )

read_message_ok :
    (msg rest : Bytes) → read_message (msg ++ rest) (value (length msg)) ≡ command_failed msg
unfolding read_message
read_message_ok [] rest = refl
read_message_ok (b ∷ msg) rest =
    ground (arith, read_full-append (length (b ∷ msg)) (b ∷ msg) rest refl)

read_failure_lem :
    (msg rest : Bytes)
    → length msg ≤ max_frame_len
    → read_failure (hex4 (length msg) ++ (msg ++ rest)) ≡ command_failed msg
unfolding read_failure
read_failure_lem msg rest h =
    rw
      (
        read_failure,
        read_full-append 4 (hex4 (length msg)) (msg ++ rest) (length-hex4 (length msg)),
        parse_uint-hex4 (length msg) h,
      )
      (read_message_ok msg rest)

read_status_fail :
    (c : Conn) (s : Bytes)
    → c.incoming ≡ status_fail ++ s
    → (read_status c).1 ≡ some (read_failure s)
unfolding read_status check_status bytes_eq
read_status_fail c s i = ground (arith, read_full-append 4 status_fail s refl)

send_command_step :
    (command frame : Bytes) (c : Conn)
    → encode_frame command ≡ ok frame
    → 0 < c.outgoing.budget
    → (let c' : Conn = record c { outgoing = (write frame c.outgoing).0 } in
        send_command command c ≡ read_status c')
unfolding send_command send_frame write
send_command_step command frame c e b = rw (e, send_command) (ground arith)

-- A server that answers a command with the FAIL message of a reason, whatever follows, makes
-- SendCommand fail with that reason, cut to 65535 bytes, provided that the frame can be encoded
-- and written.
pub send_command-fail_message :
    (command frame reason rest : Bytes) (c : Conn)
    → encode_frame command ≡ ok frame
    → 0 < c.outgoing.budget
    → c.incoming ≡ fail_message reason ++ rest
    → (send_command command c).1 ≡ some (command_failed (truncate reason))
send_command-fail_message command frame reason rest c e b i =
    ap (λ r. r.1) (send_command_step command frame c e b)
    ∙ read_status_fail (record c { outgoing = (write frame c.outgoing).0 }) _ (i ∙ behind_status)
    ∙ ap some (read_failure_lem (truncate reason) rest (truncate-length reason))
  where
    behind_status :
        fail_message reason ++ rest
        ≡ status_fail ++ (hex4 (length (truncate reason)) ++ (truncate reason ++ rest))
    behind_status =
        unfold fail_message in
        ap (λ t. status_fail ++ t)
          (append_assoc (hex4 (length (truncate reason))) (truncate reason) rest)
