-- ===== src/Examples/Transfer.antt =====
-- Files pushed to a device, commands run on it, and rules set up for its services.
use adb_tcp_bridge.Common.{
  suc, length, ℕ, ◌+◌, ◌*◌, ◌≤◌, ◌≡◌, refl, true, none, some, List, [], ◌∷◌, ◌++◌, arith, Bytes,
  codes, bytes_eq, ok, replicate, ◌==◌, if◌then◌else◌,
}
use adb_tcp_bridge.Common.Word.{be_bytes, be_value, le_bytes, le_value}
use adb_tcp_bridge.Stream.{new_writer, read_full, write}
use adb_tcp_bridge.Hdc.Channel.{
  Socket, channel, open_channel, read_command, read_frame, read_content, split_command,
  handshake_read, handshake_response, write_frame,
}
use adb_tcp_bridge.Hdc.Channel.Frames.{frame_bytes}
use adb_tcp_bridge.Hdc.Channel.Command.{run_command, frames, payloads, run_command-frames}
use adb_tcp_bridge.Hdc.Transfer.Push.{LocalFile, file_init, file_begin, file_finish, transfer}
use adb_tcp_bridge.Hdc.Transfer.Sending.{command_bytes, Sent, transfer_bytes, transfer-Sent}
use adb_tcp_bridge.Hdc.Transfer.Closing.{Closed, transfer-Closed}
use adb_tcp_bridge.Hdc.Shell.Output.{serve_output}
use adb_tcp_bridge.Hdc.Shell.Delivery.{read_shell_output, read_shell_output-serve_output}
use adb_tcp_bridge.Hdc.Forward.{Attempt, timed_out, open_forward}
use adb_tcp_bridge.Hdc.Forward.Cleanup.{no_rules, Tidied, open_forward-Tidied}

-- Two reads, the second of which gives nothing.
abbrev file : LocalFile
file = record { size = 3; mtime = 9; chunks = codes "abc" ∷ [] ∷ []; ended = none }

abbrev finish : Bytes
finish = command_bytes file_finish (1 ∷ [])

abbrev begin : Bytes
begin = command_bytes file_begin [] ++ finish

abbrev replies : Bytes
replies = command_bytes file_init [] ++ begin

abbrev socket : Socket
socket = record {
  incoming = replies;
  outgoing = record { written = []; budget = 12 };
  is_open = true;
}

first_reply : read_command replies ≡ ok ((file_init, []), begin)
unfolding read_command read_frame read_full read_content split_command be_bytes le_bytes be_value
    le_value
first_reply = refl

second_reply : read_command begin ≡ ok ((file_begin, []), finish)
unfolding read_command read_frame read_full read_content split_command be_bytes le_bytes be_value
    le_value
second_reply = refl

third_reply : read_command finish ≡ ok ((file_finish, 1 ∷ []), [])
unfolding read_command read_frame read_full read_content split_command be_bytes le_bytes be_value
    le_value
third_reply = refl

transfer-Sent_example :
    Sent []
      (transfer_bytes file (codes "f") (codes "/d/f") (1 ∷ []))
      (transfer file (codes "f") (codes "/d/f") socket)
transfer-Sent_example =
    transfer-Sent file (codes "f") (codes "/d/f") [] [] (1 ∷ []) replies begin finish [] [] 12
      first_reply second_reply third_reply refl (omega arith) (omega arith)

-- A server that answers nothing.
transfer-Closed_example : Closed (codes "x") (
    transfer file (codes "f") (codes "/d/f") (record {
      incoming = [];
      outgoing = record { written = codes "x"; budget = 12 };
      is_open = true;
    }))
transfer-Closed_example =
    transfer-Closed file (codes "f") (codes "/d/f") [] (codes "x") 12 (omega arith)

-- A handshake, and two frames of output around an empty one.
abbrev handshake : Bytes
handshake = codes "OHOS HDC\0\0\0\0" ++ replicate 32 0

abbrev parts : List Bytes
parts = codes "ab" ∷ [] ∷ codes "c" ∷ []

abbrev device : Socket
device = record {
  incoming = frame_bytes handshake ++ frames parts;
  outgoing = new_writer 4;
  is_open = true;
}

abbrev after_open : Socket
after_open = record {
  incoming = frames parts;
  outgoing =
      (write_frame (codes "shell id")
        (write_frame (handshake_response [] handshake) (new_writer 4)).0).0;
  is_open = true;
}

opens : open_channel (some device) [] (codes "shell id") ≡ channel after_open
unfolding open_channel read_frame read_full read_content handshake_read handshake_response
    write_frame write be_bytes be_value bytes_eq
opens = refl

run_command-frames_example :
    run_command (some device) [] (codes "shell id") ≡ (payloads parts, none)
run_command-frames_example =
    run_command-frames (some device) [] (codes "shell id") after_open parts opens refl
      (omega arith, (omega arith, (omega arith, tt)))

-- The first attempt finds its port taken, and the next cannot dial it.
abbrev attempt : ℕ → Attempt
attempt k = record {
  random = some k;
  output = if k == 0 then codes "[Fail]TCP Port listen failed" else codes "OK";
  fine = true;
  dialled = if k == 1 then none else some timed_out;
}

open_forward-Tidied_example : Tidied (open_forward attempt no_rules)
open_forward-Tidied_example = open_forward-Tidied attempt

-- The input side ends after 40 writes of the output side.
enough : (m : ℕ) → some 40 ≡ some m → length (frames parts) * 2 + 2 ≤ m
unfolding be_bytes
enough m e = ground (arith, e)

read_shell_output-serve_output_example :
    let bytes = (serve_output true (some 40) (frames parts) (new_writer 32)).written ++ codes "x" in
    read_shell_output (suc (length bytes)) bytes ≡ some ((payloads parts, 0), codes "x")
read_shell_output-serve_output_example =
    read_shell_output-serve_output parts 32 (some 40) (codes "x")
      (omega arith, (omega arith, (omega arith, tt))) (unfold be_bytes in omega arith) enough
