-- ===== src/Hdc/Channel.antt =====
-- internal/hdcserver/channel.go: the frames of a channel to the hdc server.
-- Deadlines are left out. The bytes of a socket that are still to come are its `incoming`.
pub mod Frames
pub mod Command
use adb_tcp_bridge.Common.{
  ℕ, ◌+◌, ◌-◌, ◌%◌, ◌^◌, Bool, true, false, not, ◌&&◌, ◌||◌, Option, none, some, [], ◌∷◌, ◌++◌,
  Bytes, codes, bytes_eq, Result, ok, err, ltb, ◌==◌, if◌then◌else◌, length, take, drop, replicate,
}
use adb_tcp_bridge.Common.Word.{be_bytes, be_value, le_bytes, le_value}
use adb_tcp_bridge.Stream.{ReadError, read_full, Writer, write, then_write}

abbrev pub handshake_message : Bytes
handshake_message = codes "OHOS HDC"

abbrev pub handshake_size : ℕ
handshake_size = 44

abbrev pub connect_key_offset : ℕ
connect_key_offset = 12

abbrev pub connect_key_size : ℕ
connect_key_size = 32

-- 16 << 20
abbrev pub max_frame_size : ℕ
max_frame_size = 0x100_0000

pub data Error : Type 0 where
  read : ReadError → Error
  frame_too_large : ℕ → Error
  short_command : Error
  dial_failed : Error
  invalid_handshake : Error
  key_too_long : Error
  write_failed : Error
  out_of_fuel : Error

-- `if length > 0 { io.ReadFull(r, payload) }`
unfoldable pub read_content : ℕ → Bytes → Result Error (Bytes × Bytes)
read_content n s =
    if ltb max_frame_size n
    then err (frame_too_large n)
    else if not (ltb 0 n)
    then ok ([], s)
    else elim (read_full n s) [ err e ↦ err (read e) | ok (payload, rest) ↦ ok (payload, rest) ]

-- readHDCFrame: the payload, and what the reader still holds.
unfoldable pub read_frame : Bytes → Result Error (Bytes × Bytes)
read_frame s = elim (read_full 4 s) [
  | err e ↦ err (read e)
  | ok (size, rest) ↦ read_content (be_value size) rest
]

-- writeHDCFrame; the length is a uint32, which wraps.
unfoldable pub write_frame : Bytes → Writer → Writer × Bool
write_frame payload w =
    then_write (write (be_bytes (length payload % 2 ^ 32)) w)
      λ w'. if length payload == 0 then (w', true) else write payload w'

-- The command of a frame, and its payload.
unfoldable pub split_command : Bytes → Bytes → Result Error ((ℕ × Bytes) × Bytes)
split_command frame rest =
    if ltb (length frame) 2
    then err short_command
    else ok ((le_value (take 2 frame), drop 2 frame), rest)

unfoldable pub read_command : Bytes → Result Error ((ℕ × Bytes) × Bytes)
read_command s = elim (read_frame s) [ err e ↦ err e | ok (frame, rest) ↦ split_command frame rest ]

unfoldable pub write_command : ℕ → Bytes → Writer → Writer × Bool
write_command command payload w = write_frame (le_bytes 2 command ++ payload) w

-- A TCP connection to the hdc server.
pub record Socket : Type 0 where
  pub incoming : Bytes
  pub outgoing : Writer
  pub is_open : Bool

-- What openChannel returns: the channel, or an error with the connection that it closed, if any.
pub data Opened : Type 0 where
  no_socket : Error → Opened
  closed_socket : Socket → Error → Opened
  channel : Socket → Opened

abbrev pub give_up : Socket → Error → Opened
give_up s e = closed_socket (record s { is_open = false }) e

abbrev pub is_handshake : Bytes → Bool
is_handshake frame =
    not (ltb (length frame) handshake_size) && bytes_eq (take 8 frame) handshake_message

-- The handshake with the connect key cleared and the serial copied over it.
unfoldable pub handshake_response : Bytes → Bytes → Bytes
handshake_response serial handshake =
    take connect_key_offset handshake ++ (serial ++ replicate (connect_key_size - length serial) 0)

abbrev pub command_sent : Socket → Writer × Bool → Opened
command_sent s (w, fine) =
    let s' = record s { outgoing = w } in if fine then channel s' else give_up s' write_failed

abbrev pub response_sent : Bytes → Socket → Writer × Bool → Opened
response_sent command s (w, fine) =
    let s' = record s { outgoing = w } in
    if fine then command_sent s' (write_frame command w) else give_up s' write_failed

unfoldable pub handshake_read : Bytes → Bytes → Socket → Bytes → Opened
handshake_read serial command s frame =
    if not (is_handshake frame)
    then give_up s invalid_handshake
    else if ltb connect_key_size (length serial)
    then give_up s key_too_long
    else response_sent command s (write_frame (handshake_response serial frame) s.outgoing)

-- openChannel; the first argument is the outcome of DialContext.
unfoldable pub open_channel : Option Socket → Bytes → Bytes → Opened
open_channel none serial command = no_socket dial_failed
open_channel (some s) serial command = elim (read_frame s.incoming) [
  | err e ↦ give_up s e
  | ok (frame, rest) ↦ handshake_read serial command (record s { incoming = rest }) frame
]
