-- ===== src/Host/Dialogue.antt =====
-- internal/adbhost/client.go: the command phase of a connection to the local adb server.
pub mod Opening
use adb_tcp_bridge.Common.{
  ℕ, suc, Bool, true, false, Option, none, some, [], ◌++◌, Bytes, codes, bytes_eq, Result, ok, err,
  ltb, if◌then◌else◌,
}
use adb_tcp_bridge.Strconv.{Parsed, value, bad_syntax, out_of_range, parse_uint}
use adb_tcp_bridge.Stream.{ReadError, read_full, Writer, write}
use adb_tcp_bridge.Host.{
  Error, frame_too_large, write_failed, read, command_failed, invalid_failure_length,
  unexpected_status, dial_failed, encode_frame, status_okay, status_fail,
}

-- A TCP connection from the client's side. Deadlines and time are left out.
pub record Conn : Type 0 where
  pub incoming : Bytes
  pub outgoing : Writer
  pub is_open : Bool

abbrev pub close : Conn → Conn
close c = record c { is_open = false }

-- The message behind a FAIL status, as the error of the command.
unfoldable pub read_message : Bytes → Parsed → Error
read_message s (value n) = elim (if ltb 0 n then read_full n s else ok ([], s)) [
  | err e ↦ read e
  | ok (msg, rest) ↦ command_failed msg
]
read_message s bad_syntax = invalid_failure_length
read_message s out_of_range = invalid_failure_length

unfoldable pub read_failure : Bytes → Error
read_failure s = elim (read_full 4 s) [
  | err e ↦ read e
  | ok (digits, rest) ↦ read_message rest (parse_uint 16 16 digits)
]

-- The answer to a command, given its four bytes of status: nil, or the error.
unfoldable pub check_status : Bytes → Conn → Option Error
check_status status c =
    if bytes_eq status status_okay
    then none
    else if bytes_eq status status_fail
    then some (read_failure c.incoming)
    else some (unexpected_status status)

unfoldable pub read_status : Conn → Conn × Option Error
read_status c = elim (read_full 4 c.incoming) [
  | err e ↦ (c, some (read e))
  | ok (status, rest) ↦ let c' = record c { incoming = rest } in (c', check_status status c')
]

-- io.WriteString of the frame, and the status.
unfoldable pub send_frame : Bytes → Conn → Conn × Option Error
send_frame frame c =
    let (w, fine) = write frame c.outgoing in
    let c' = record c { outgoing = w } in if fine then read_status c' else (c', some write_failed)

-- The connection afterwards, and the error unless it is nil. After an error the connection is
-- closed by every caller, so what a FAIL message takes from it is not recorded.
unfoldable pub send_command : Bytes → Conn → Conn × Option Error
send_command command c = elim (encode_frame command) [
  | err e ↦ (c, some e)
  | ok frame ↦ send_frame frame c
]

-- What OpenService returns: the connection with a nil error, or the error. The connection that it
-- closes on an error is kept beside it.
pub data Opened : Type 0 where
  no_conn : Error → Opened
  closed_conn : Conn → Error → Opened
  opened : Conn → Opened

abbrev pub service_sent : Conn × Option Error → Opened
service_sent (c, some e) = closed_conn (close c) e
service_sent (c, none) = opened c

unfoldable pub transport_sent : Bytes → Conn × Option Error → Opened
transport_sent service (c, some e) = closed_conn (close c) e
transport_sent service (c, none) = service_sent (send_command service c)

-- The first argument is the outcome of dial.
unfoldable pub open_service : Option Conn → Bytes → Bytes → Opened
open_service none serial service = no_conn dial_failed
open_service (some c) serial service =
    transport_sent service (send_command (codes "host:transport:" ++ serial) c)
