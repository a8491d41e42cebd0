-- ===== src/Hdc/Shell/Output.antt =====
-- internal/hdcserver/shell.go: the output of a shell, from the hdc server's frames to the client's
-- packets. The loops run on fuel, one for a Read of the channel; of the input side that runs
-- beside it, its end is here.
use Prim.Native.Nat.{min}
use adb_tcp_bridge.Common.{
  ℕ, zero, suc, Bool, not, Option, none, some, [], ◌++◌, Bytes, codes, bytes_eq, ok, err, ltb,
  if◌then◌else◌, length,
}
use adb_tcp_bridge.Common.Word.{le_bytes}
use adb_tcp_bridge.Stream.{Writer, write}
use adb_tcp_bridge.Hdc.Channel.Command.{sync_chunk_size, Reader, channel_read}
use adb_tcp_bridge.Hdc.Shell.{stdout_id, exit_id, write_shell_packet, ShellSpec}

-- The command of openShell.
unfoldable pub shell_command : ShellSpec → Bytes
shell_command spec =
    if bytes_eq spec.command [] then codes "shell\0" else codes "shell " ++ spec.command

-- What is left to do after a Read: its packet, if it gave something, and the rest of the loop.
abbrev pub pass_on : Bytes → (Writer → Writer) → Writer → Writer
pass_on bytes next w =
    let r = write_shell_packet stdout_id bytes w in
    if not (ltb 0 (length bytes)) then next w else if r.1 then next r.0 else r.0

-- copyShellV2Output
unfoldable pub copy_output : ℕ → Reader → Writer → Writer
unfolding channel_read
copy_output zero r w = w
copy_output (suc k) r w = elim (channel_read sync_chunk_size r) [
  | err e ↦ w
  | ok (bytes, r') ↦ pass_on bytes (copy_output k r') w
]

-- io.Copy from the channel to the client, by 32 KiB.
abbrev io_copy_size : ℕ
io_copy_size = 0x8000

unfoldable pub copy_raw : ℕ → Reader → Writer → Writer
unfolding channel_read
copy_raw zero r w = w
copy_raw (suc k) r w = elim (channel_read io_copy_size r) [
  | err e ↦ w
  | ok (bytes, r') ↦
      let out = write bytes w in
      let sent = copy_raw k r' out.0 in
      let skipped = copy_raw k r' w in
      if not (ltb 0 (length bytes)) then skipped else if out.1 then sent else out.0
]

-- The client's end once the input goroutine of serveShell has ended, if it ends before the output:
-- its closeBoth closes that end, here after so many writes of the output side. It closes the channel
-- too, but nothing that is read afterwards could still be written.
unfoldable pub cut_off : Option ℕ → Writer → Writer
cut_off none w = w
cut_off (some m) w = record w { budget = min m w.budget }

-- The output side of serveShell, whose input goroutine ends after so many of its writes, or is still
-- waiting for input when it is done: the exit packet carries uint32LE(0).
unfoldable pub serve_output : Bool → Option ℕ → Bytes → Writer → Writer
unfolding copy_output copy_raw cut_off
serve_output v2 input_ends incoming w =
    let r : Reader = record { incoming = incoming; buffered = [] } in
    let k = suc (length incoming) in
    let w' = cut_off input_ends w in
    if v2
    then (write_shell_packet exit_id (le_bytes 4 0) (copy_output k r w')).0
    else copy_raw k r w'
