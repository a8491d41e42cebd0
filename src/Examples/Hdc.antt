-- ===== src/Examples/Hdc.antt =====
-- The backend of the hdc server.
use adb_tcp_bridge.Common.{
  ◌+◌, ◌-◌, ◌≡◌, refl, true, some, List, [], ◌∷◌, ◌++◌, arith, Bytes, codes, bytes_eq, length, take,
  drop, replicate, All,
}
use adb_tcp_bridge.Stream.{new_writer}
use adb_tcp_bridge.Hdc.Channel.{
  Socket, channel, open_channel, is_handshake, handshake_size, connect_key_offset, connect_key_size,
}
use adb_tcp_bridge.Hdc.Channel.Frames.{frame_bytes, open_channel-handshake}
use adb_tcp_bridge.Hdc.Transfer.{file_header_size, encode_transfer_payload}
use adb_tcp_bridge.Hdc.Transfer.Payload.{read_fields, encode_transfer_payload_lem}
use adb_tcp_bridge.Hdc.Shell.{
  ShellPacket, stdin_id, close_stdin_id, window_size_id, stdin_closed, copy_shell_input,
}
use adb_tcp_bridge.Hdc.Shell.Input.{
  IsInput, shell_bytes, all_bytes, stdin_data, copy_shell_input-packets,
}
use adb_tcp_bridge.Hdc.Sync.{push, receive_upload, shell_quote}
use adb_tcp_bridge.Hdc.Sync.Quote.{outside, shell_word, shell_word-shell_quote}
use adb_tcp_bridge.Hdc.Sync.Receiving.{sync_header, all_data, contents, receive_upload-chunks}

-- A handshake of 44 bytes.
abbrev handshake : Bytes
handshake = codes "OHOS HDC\0\0\0\0" ++ replicate 32 7

abbrev server : Socket
server = record {
  incoming = frame_bytes handshake ++ codes "data";
  outgoing = new_writer 4;
  is_open = true;
}

handshake_accepted : is_handshake handshake ≡ true
unfolding bytes_eq
handshake_accepted = refl

open_channel-handshake_example :
    let response =
      take connect_key_offset handshake
      ++ (codes "dev1" ++ replicate (connect_key_size - length (codes "dev1")) 0) in
    (length response ≡ handshake_size)
    × ((s' : Socket) × (open_channel (some server) (codes "dev1") (codes "shell ls") ≡ channel s')
        × (s'.incoming ≡ codes "data")
        × (s'.is_open ≡ true)
        × (s'.outgoing.written ≡ [] ++ (frame_bytes response ++ frame_bytes (codes "shell ls"))))
open_channel-handshake_example =
    open_channel-handshake (codes "dev1") (codes "shell ls") handshake (codes "data") server refl
      handshake_accepted (omega arith) (omega arith) (omega arith) (omega arith)

encode_transfer_payload_lem_example :
    (length (encode_transfer_payload 49152 (codes "ab")) ≡ file_header_size + 2)
    × (drop file_header_size (encode_transfer_payload 49152 (codes "ab")) ≡ codes "ab")
    × (read_fields 4 (encode_transfer_payload 49152 (codes "ab"))
        ≡ some ((8, 49152) ∷ (16, 0) ∷ (24, 2) ∷ (32, 2) ∷ []))
encode_transfer_payload_lem_example =
    encode_transfer_payload_lem 49152 (codes "ab") (omega arith) (omega arith)

-- Input, a resize, which is ignored, and more input.
abbrev typed : List ShellPacket
typed =
    record { stream = stdin_id; payload = codes "l" }
    ∷ record { stream = window_size_id; payload = codes "80" }
    ∷ record { stream = stdin_id; payload = codes "s" }
    ∷ []

typed-IsInput : All IsInput typed
typed-IsInput = (
  record { stays = λ e. omega arith; fits = omega arith },
  (
    record { stays = λ e. omega arith; fits = omega arith },
    (record { stays = λ e. omega arith; fits = omega arith }, tt),
  ),
)

copy_shell_input-packets_example :
    let (w', r) =
      copy_shell_input
        (all_bytes typed
          ++ (shell_bytes (record { stream = close_stdin_id; payload = [] }) ++ codes "more"))
        (new_writer 3) in
    (w'.written ≡ [] ++ stdin_data typed) × (r ≡ (codes "more", stdin_closed))
copy_shell_input-packets_example =
    copy_shell_input-packets typed [] (codes "more") (new_writer 3) typed-IsInput (omega arith)
      (omega arith)

-- A file in two requests.
abbrev file : List Bytes
file = codes "he" ∷ codes "llo" ∷ []

receive_upload-chunks_example :
    receive_upload
      (all_data file ++ (sync_header (codes "DONE") 1700000000 ++ codes "QUIT"))
      (new_writer 2)
    ≡ (push (contents file), codes "QUIT")
receive_upload-chunks_example =
    receive_upload-chunks file 1700000000 (codes "QUIT") 2 (omega arith, (omega arith, tt))
      (omega arith) (omega arith)

shell_word-shell_quote_example :
    shell_word outside (shell_quote (codes "it's; rm")) ≡ some (codes "it's; rm")
shell_word-shell_quote_example = shell_word-shell_quote (codes "it's; rm")
