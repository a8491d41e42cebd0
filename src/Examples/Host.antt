-- ===== src/Examples/Host.antt =====
-- The host protocol.
use adb_tcp_bridge.Common.{
  ◌≡◌, refl, true, some, [], ◌++◌, arith, Bytes, bytes_eq, codes, ok, length,
}
use adb_tcp_bridge.Strconv.{hex4, hex_digit}
use adb_tcp_bridge.Stream.{new_writer, read_full, write}
use adb_tcp_bridge.Host.{
  command_failed, encode_frame, truncate, fail_message, parse_length_prefixed, status_okay,
}
use adb_tcp_bridge.Host.Frames.{parse_length_prefixed-encode_frame}
use adb_tcp_bridge.Host.Dialogue.{
  Conn, send_command, opened, open_service, transport_sent, send_frame, read_status, check_status,
}
use adb_tcp_bridge.Host.Dialogue.Opening.{open_service_sound, send_command-fail_message}

abbrev shell_frame : Bytes
shell_frame = codes "0006shell:"

shell_encoded : encode_frame (codes "shell:") ≡ ok shell_frame
unfolding encode_frame hex4 hex_digit
shell_encoded = refl

parse_length_prefixed-encode_frame_example :
    parse_length_prefixed (codes "OKAY" ++ (shell_frame ++ codes "more")) (length (codes "OKAY"))
    ≡ some (codes "shell:")
parse_length_prefixed-encode_frame_example =
    parse_length_prefixed-encode_frame (codes "OKAY") (codes "shell:") (codes "more") shell_frame
      shell_encoded

-- A server that accepts both commands and then sends "$ ".
abbrev dialled : Conn
dialled = record { incoming = codes "OKAYOKAY$ "; outgoing = new_writer 9; is_open = true }

abbrev in_shell : Conn
in_shell = record {
  incoming = codes "$ ";
  outgoing = record { written = codes "0013host:transport:dev10006shell:"; budget = 7 };
  is_open = true;
}

shell_opened : open_service (some dialled) (codes "dev1") (codes "shell:") ≡ opened in_shell
unfolding open_service transport_sent send_command encode_frame send_frame write read_status
    read_full check_status bytes_eq hex4 hex_digit
shell_opened = refl

open_service_sound_example :
    (transport frame : Bytes) × (encode_frame (codes "host:transport:" ++ codes "dev1")
      ≡ ok transport)
    × (encode_frame (codes "shell:") ≡ ok frame)
    × (dialled.incoming ≡ status_okay ++ (status_okay ++ in_shell.incoming))
    × (in_shell.outgoing.written ≡ dialled.outgoing.written ++ (transport ++ frame))
    × (in_shell.is_open ≡ dialled.is_open)
open_service_sound_example =
    open_service_sound dialled in_shell (codes "dev1") (codes "shell:") shell_opened

-- A server that refuses.
abbrev refusing : Conn
refusing = record {
  incoming = fail_message (codes "no") ++ [];
  outgoing = new_writer 1;
  is_open = true;
}

send_command-fail_message_example :
    (send_command (codes "shell:") refusing).1 ≡ some (command_failed (truncate (codes "no")))
send_command-fail_message_example =
    send_command-fail_message (codes "shell:") shell_frame (codes "no") [] refusing shell_encoded
      (omega arith) refl
