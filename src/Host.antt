-- ===== src/Host.antt =====
-- internal/adbhost: the host protocol of the local adb server. Its frames (protocol.go) and the
-- dialogue of a client with the server and the properties that it reads (client.go).
pub mod Frames
pub mod Dialogue
pub mod Properties
use adb_tcp_bridge.Common.{
  ℕ, ◌+◌, Bool, true, false, ◌&&◌, Option, none, some, [], ◌++◌, Bytes, codes, bytes_eq, Result, ok,
  err, ◌>>=◌, ltb, leb, ◌==◌, if◌then◌else◌, length, take, drop,
}
use adb_tcp_bridge.Strconv.{Parsed, value, bad_syntax, out_of_range, parse_uint, hex4}
use adb_tcp_bridge.Stream.{ReadError, read_full}

abbrev pub status_okay : Bytes
status_okay = codes "OKAY"

abbrev pub status_fail : Bytes
status_fail = codes "FAIL"

abbrev pub max_frame_len : ℕ
max_frame_len = 0xffff

pub data Error : Type 0 where
  frame_too_large : Error
  write_failed : Error
  read : ReadError → Error
  command_failed : Bytes → Error
  invalid_failure_length : Error
  unexpected_status : Bytes → Error
  dial_failed : Error

unfoldable pub encode_frame : Bytes → Result Error Bytes
encode_frame payload =
    if ltb max_frame_len (length payload)
    then err frame_too_large
    else ok (hex4 (length payload) ++ payload)

-- reason[:maxFrameLen], if it is longer.
unfoldable pub truncate : Bytes → Bytes
truncate reason = if ltb max_frame_len (length reason) then take max_frame_len reason else reason

unfoldable pub fail_message : Bytes → Bytes
fail_message reason = let r = truncate reason in status_fail ++ (hex4 (length r) ++ r)

unfoldable pub has_status : Bytes → Bytes → Bool
has_status response status = leb 4 (length response) && bytes_eq (take 4 response) status

-- The content at data[offset+4 : end], if the data reach that far.
unfoldable pub frame_content : Bytes → ℕ → Parsed → Option Bytes
frame_content bytes offset (value n) =
    if ltb (length bytes) (offset + 4 + n) then none else some (take n (drop (offset + 4) bytes))
frame_content bytes offset bad_syntax = none
frame_content bytes offset out_of_range = none

-- An offset is never negative here.
unfoldable pub parse_length_prefixed : Bytes → ℕ → Option Bytes
unfolding frame_content
parse_length_prefixed bytes offset =
    if ltb (length bytes) (offset + 4)
    then none
    else frame_content bytes offset (parse_uint 16 16 (take 4 (drop offset bytes)))
