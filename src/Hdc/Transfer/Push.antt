-- ===== src/Hdc/Transfer/Push.antt =====
-- internal/hdcserver/file_transfer.go: pushFile, the dialogue that sends a file to the device.
-- The local file is what its Reads give; dialling, and the directory and the last element of the
-- remote path, are parameters. Errors of writing that the code drops are dropped.
use adb_tcp_bridge.Common.{
  ℕ, ◌+◌, ◌%◌, ◌^◌, Bool, false, not, ◌&&◌, ◌||◌, Option, none, some, List, [], ◌∷◌, ◌++◌, Bytes,
  codes, bytes_eq, Result, ok, err, ltb, ◌==◌, if◌then◌else◌, length,
}
use adb_tcp_bridge.Hdc.Channel.{
  write_command, read_command, Socket, Opened, no_socket, closed_socket, channel, open_channel,
}
use adb_tcp_bridge.Hdc.Channel
use adb_tcp_bridge.Hdc.Channel.Command.{run_command}
use adb_tcp_bridge.Hdc.Sync.{shell_quote}
use adb_tcp_bridge.Hdc.Transfer.{encode_transfer_config, encode_transfer_payload}

abbrev pub kernel_channel_close : ℕ
kernel_channel_close = 2

abbrev pub kernel_wakeup_slave_task : ℕ
kernel_wakeup_slave_task = 12

abbrev pub file_init : ℕ
file_init = 3000

abbrev pub file_check : ℕ
file_check = 3001

abbrev pub file_begin : ℕ
file_begin = 3002

abbrev pub file_data : ℕ
file_data = 3003

abbrev pub file_finish : ℕ
file_finish = 3004

-- A local file that was opened: its size and time, the bytes of each Read, and the error that ends
-- the reading unless it is EOF.
pub record LocalFile : Type 0 where
  pub size : ℕ
  pub mtime : ℕ
  pub chunks : List Bytes
  pub ended : Option Bytes

pub data PushError : Type 0 where
  local_failed : Bytes → PushError
  dir_failed : Channel.Error → PushError
  open_failed : Channel.Error → PushError
  read_failed : Channel.Error → PushError
  unexpected_command : ℕ → PushError
  write_failed : PushError

-- The socket afterwards, and the error unless it is nil.
abbrev pub Ended : Type 0
Ended = Socket × Option PushError

abbrev contains_special : Bytes → Bool
contains_special [] = false
contains_special (c ∷ cs) =
    (c == b' ' || (c == 9 || (c == 10 || (c == 13 || (c == b'"' || c == b'\'')))))
    || contains_special cs

-- ReplaceAll of a backslash by two, and then of a double quote by a backslash and the quote.
abbrev escape_special : Bytes → Bytes
escape_special [] = []
escape_special (c ∷ cs) =
    (if c == b'\\' then b'\\' ∷ b'\\' ∷ [] else if c == b'"' then b'\\' ∷ b'"' ∷ [] else c ∷ [])
    ++ escape_special cs

unfoldable pub hdc_command_quote : Bytes → Bytes
hdc_command_quote value =
    if not (bytes_eq value []) && not (contains_special value)
    then value
    else b'"' ∷ (escape_special value ++ (b'"' ∷ []))

abbrev pub send_command : Bytes → Bytes → Bytes
send_command base remote =
    codes "file send remote " ++ (hdc_command_quote base ++ (b' ' ∷ hdc_command_quote remote))

-- channel.writeCommand on the socket.
abbrev pub send : ℕ → Bytes → Socket → Socket × Bool
send command payload s =
    let r = write_command command payload s.outgoing in (record s { outgoing = r.0 }, r.1)

-- The deferred Close.
abbrev pub hang_up : Socket → Option PushError → Ended
hang_up s e = (record s { is_open = false }, e)

-- `_ = channel.writeCommand(hdcKernelChannelClose, []byte{1}); return err`
unfoldable pub abort : PushError → Socket → Ended
abort e s = hang_up (send kernel_channel_close (1 ∷ []) s).0 (some e)

-- A command that must be written before the dialogue goes on.
unfoldable pub send_then : ℕ → Bytes → Socket → (Socket → Ended) → Ended
unfolding abort
send_then command payload s k =
    let r = send command payload s in if r.1 then k r.0 else abort write_failed r.0

-- The next command, which must be the one that is wanted.
unfoldable pub expect : ℕ → Socket → (Bytes → Socket → Ended) → Ended
unfolding abort
expect wanted s k = elim (read_command s.incoming) [
  | err e ↦ abort (read_failed e) s
  | ok ((command, payload), rest) ↦
      let s' = record s { incoming = rest } in
      if command == wanted then k payload s' else abort (unexpected_command command) s'
]

unfoldable pub send_close : Socket → Ended
send_close s =
    let r = send kernel_channel_close (1 ∷ []) s in
    hang_up r.0 (if r.1 then none else some write_failed)

-- `len(payload) > 0 && payload[0] != 0`
abbrev pub wants_ack : Bytes → Bool
wants_ack [] = false
wants_ack (b ∷ bs) = not (b == 0)

unfoldable pub acknowledge : Bytes → Socket → Ended
unfolding send_then send_close
acknowledge payload s =
    if wants_ack payload then send_then file_finish (0 ∷ []) s send_close else send_close s

-- After the last Read.
unfoldable pub chunks_sent : Option Bytes → Socket → Ended
unfolding abort expect acknowledge
chunks_sent (some e) s = abort (local_failed e) s
chunks_sent none s = expect file_finish s acknowledge

-- The loop over the Reads; the index is a uint64.
unfoldable pub send_chunks : ℕ → List Bytes → Option Bytes → Socket → Ended
unfolding chunks_sent send_then
send_chunks index [] ended s = chunks_sent ended s
send_chunks index (c ∷ cs) ended s =
    let skipped = send_chunks index cs ended s in
    let sent =
      send_then file_data (encode_transfer_payload index c) s
        (λ s'. send_chunks ((index + length c) % 2 ^ 64) cs ended s') in
    if ltb 0 (length c) then sent else skipped

-- The dialogue on an open channel.
unfoldable pub transfer : LocalFile → Bytes → Bytes → Socket → Ended
unfolding expect send_then send_chunks
transfer file base remote s = expect file_init s λ _ s₁.
    send_then kernel_wakeup_slave_task [] s₁ λ s₂.
      send_then file_check (encode_transfer_config file.size remote base file.mtime) s₂
        λ s₃. expect file_begin s₃ λ _ s₄. send_chunks 0 file.chunks file.ended s₄

-- makeRemoteDir, with the outcome of its dial.
unfoldable pub make_remote_dir : Option Socket → Bytes → Bytes → Option Channel.Error
make_remote_dir dial serial remote =
    (run_command dial serial (codes "shell mkdir -p " ++ shell_quote remote)).1

-- What is outside of the dialogue: opening the file, path.Dir and path.Base, and the outcomes of the
-- two dials.
pub record World : Type 0 where
  pub local_file : Result Bytes LocalFile
  pub dir : Bytes → Bytes
  pub base : Bytes → Bytes
  pub dial_dir : Option Socket
  pub dial : Option Socket

-- The socket that was used, if any, and the error unless it is nil.
abbrev pub opened : LocalFile → Bytes → Bytes → Opened → Option Socket × Option PushError
opened file base remote (no_socket e) = (none, some (open_failed e))
opened file base remote (closed_socket s e) = (some s, some (open_failed e))
opened file base remote (channel s) = let r = transfer file base remote s in (some r.0, r.1)

unfoldable pub push_file : World → Bytes → Bytes → Option Socket × Option PushError
push_file world serial remote = elim world.local_file [
  | err e ↦ (none, some (local_failed e))
  | ok file ↦ elim (make_remote_dir world.dial_dir serial (world.dir remote)) [
    | some e ↦ (none, some (dir_failed e))
    | none ↦
        let base = world.base remote in
        opened file base remote (open_channel world.dial serial (send_command base remote))
  ]
]
