-- ===== src/Hdc/Sync/Answers.antt =====
-- internal/hdcserver/sync.go: the answers to STAT, LIST, RECV and SEND, and the loop over requests.
-- The client's end of the pipe is a writer for the answers. Errors of writing that the code drops are
-- dropped.
use adb_tcp_bridge.Common.{
  ℕ, zero, suc, ◌%◌, ◌^◌, Bool, true, false, not, Option, none, some, List, [], ◌∷◌, ◌++◌, Bytes,
  codes, bytes_eq, cut, bit_and, Result, ok, err, ltb, ◌==◌, if◌then◌else◌, length, take, replicate,
}
use adb_tcp_bridge.Common.Word.{le_bytes}
use adb_tcp_bridge.Stream.{Writer, write, then_write}
use adb_tcp_bridge.Strconv.{Parsed, value, bad_syntax, out_of_range, parse_uint}
use adb_tcp_bridge.Strings.{trim_space}
use adb_tcp_bridge.Hdc.Sync.{
  read_sync_request, write_sync_header, write_sync_data, Upload, push, file_failed, unexpected,
  dropped, out_of_fuel, receive,
}
use adb_tcp_bridge.Hdc.Sync.Remote.{
  RemoteEntry, no_entry, RemoteError, Shell, remote_path_info, remote_list, pull_file_command,
}

-- The header of an answer that carries an entry: the size is cut to 32 bits.
unfoldable pub entry_header : Bytes → RemoteEntry → Bytes
entry_header id e =
    id ++ (le_bytes 4 e.mode ++ (le_bytes 4 (e.size % 2 ^ 32) ++ le_bytes 4 e.mtime))

unfoldable pub write_sync_stat : RemoteEntry → Writer → Writer
write_sync_stat e w = (write (entry_header (codes "STAT") e) w).0

unfoldable pub write_sync_dent : RemoteEntry → Writer → Writer × Bool
write_sync_dent e w =
    then_write (write (entry_header (codes "DENT") e ++ le_bytes 4 (length e.name % 2 ^ 32)) w)
      (write e.name)

unfoldable pub write_sync_dent_done : Writer → Writer
write_sync_dent_done w = (write (codes "DONE" ++ replicate 16 0) w).0

abbrev pub write_sync_done : Writer → Writer
write_sync_done w = (write_sync_header (codes "DONE") 0 w).0

abbrev pub write_sync_okay : Writer → Writer
write_sync_okay w = (write_sync_header (codes "OKAY") 0 w).0

unfoldable pub write_sync_fail : Bytes → Writer → Writer
write_sync_fail reason w =
    let message = if ltb 0xffff (length reason) then take 0xffff reason else reason in
    (then_write (write_sync_header (codes "FAIL") (length message) w) (write message)).0

-- The text of an error; those of the parser are not given.
abbrev pub error_text : RemoteError → Bytes
error_text (RemoteError.command_failed e) = e
error_text RemoteError.not_exist = codes "file does not exist"
error_text _ = codes "invalid remote entry"

unfoldable pub handle_stat : Shell → Bytes → Writer → Writer
handle_stat shell remote w = elim (remote_path_info shell remote) [
  | err e ↦ write_sync_stat no_entry w
  | ok entry ↦ write_sync_stat entry w
]

-- The loop over the entries: it returns at the first failure.
unfoldable pub write_dents : List RemoteEntry → Writer → Writer
write_dents [] w = write_sync_dent_done w
write_dents (e ∷ es) w =
    let r = write_sync_dent e w in let rest = write_dents es r.0 in if r.1 then rest else r.0

unfoldable pub handle_list : Shell → Bytes → Writer → Writer
handle_list shell remote w = elim (remote_list shell remote) [
  | err e ↦ write_sync_fail (error_text e) w
  | ok entries ↦ write_dents entries w
]

-- A channel on which a file is pulled: what io.ReadFull gives for the marker, what each Read gives
-- after it, and the error that ends it, unless that is EOF.
pub record Pull : Type 0 where
  pub marker : Result Bytes Bytes
  pub chunks : List Bytes
  pub ended : Option Bytes

abbrev pub pull_ok_marker : Bytes
pull_ok_marker = 1 ∷ b'O' ∷ b'K' ∷ 2 ∷ []

abbrev pub pull_fail_marker : Bytes
pull_fail_marker = 1 ∷ b'N' ∷ b'O' ∷ 2 ∷ []

unfoldable pub all_of : List Bytes → Bytes
all_of [] = []
all_of (c ∷ cs) = c ++ all_of cs

abbrev pub end_pull : Option Bytes → Writer → Writer
end_pull none w = write_sync_done w
end_pull (some e) w = write_sync_fail e w

-- The loop of handleRecv: an empty read sends nothing.
unfoldable pub copy_pull : List Bytes → Option Bytes → Writer → Writer
copy_pull [] ended w = end_pull ended w
copy_pull (c ∷ cs) ended w =
    let r = write_sync_data c w in
    let sent = copy_pull cs ended r.0 in
    let skipped = copy_pull cs ended w in
    if not (ltb 0 (length c)) then skipped else if r.1 then sent else r.0

unfoldable pub pulled : Bytes → Pull → Writer → Writer
unfolding all_of copy_pull
pulled marker p w =
    if bytes_eq marker pull_fail_marker
    then write_sync_fail (trim_space (all_of p.chunks)) w
    else if not (bytes_eq marker pull_ok_marker)
    then write_sync_fail (codes "unexpected hdc pull response") w
    else copy_pull p.chunks p.ended w

-- handleRecv; the first argument is the channel that openChannel gives for the command, or its error.
unfoldable pub handle_recv : (Bytes → Result Bytes Pull) → Bytes → Writer → Writer
unfolding pulled
handle_recv open_channel path w =
    let remote = trim_space path in
    if bytes_eq remote []
    then write_sync_fail (codes "empty RECV path") w
    else elim (open_channel (codes "shell " ++ pull_file_command remote)) [
      | err e ↦ write_sync_fail e w
      | ok p ↦ elim p.marker [ err e ↦ write_sync_fail e w | ok marker ↦ pulled marker p w ]
    ]

-- The hdc server as handleSend uses it: making a directory, the temporary file, and pushing a file's
-- contents to a path with a mode; an error is a text.
pub record Target : Type 0 where
  pub make_dir : Bytes → Option Bytes
  pub create_temp : Result Bytes Writer
  pub write_error : Bytes
  pub push_file : Bytes → Bytes → ℕ → Option Bytes

abbrev pub answer : Option Bytes → Writer → Writer
answer none w = write_sync_okay w
answer (some e) w = write_sync_fail e w

-- The answer to an upload whose loop is over.
unfoldable pub finish_upload : Target → Bytes → ℕ → Upload → Writer → Writer
finish_upload target remote mode (push contents) w =
    answer (target.push_file contents remote mode) w
finish_upload target remote mode file_failed w = write_sync_fail target.write_error w
finish_upload target remote mode (unexpected id) w =
    write_sync_fail (codes "unexpected " ++ (id ++ codes " during SEND")) w
finish_upload target remote mode dropped w = w
finish_upload target remote mode out_of_fuel w = w

-- The value that ParseUint returns beside its error: 0, or the greatest of the width.
abbrev pub mode_value : Parsed → ℕ
mode_value (value n) = n
mode_value bad_syntax = 0
mode_value out_of_range = 0xffff_ffff

-- `uint32(mode)&0o170000 == 0o040000`
abbrev pub is_directory : ℕ → Bool
is_directory mode = bit_and mode 0xf000 == 0x4000

-- handleSend, with what the reader still holds.
unfoldable pub handle_send : Target → Bytes → Bytes → Writer → Bytes × Writer
unfolding finish_upload
handle_send target spec s w = elim (cut b',' spec) [
  | none ↦ (s, write_sync_fail (codes "invalid SEND path") w)
  | some (remote, mode_text) ↦
      let mode = mode_value (parse_uint 10 32 mode_text) in
      if bytes_eq (trim_space remote) []
      then (s, write_sync_fail (codes "invalid SEND path") w)
      else if is_directory mode
      then (s, answer (target.make_dir remote) w)
      else elim target.create_temp [
        | err e ↦ (s, write_sync_fail e w)
        | ok file ↦
            let (upload, rest) = receive (suc (length s)) s file in
            (rest, finish_upload target remote mode upload w)
      ]
]

-- What a service does with a request: the reader and the writer afterwards, and whether it goes on.
unfoldable pub serve_request :
    Shell
    → (Bytes → Result Bytes Pull)
    → Target
    → Bytes
    → Bytes
    → Bytes
    → Writer
    → (Bytes × Writer) × Bool
serve_request shell open_channel target id payload s w =
    if bytes_eq id (codes "STAT")
    then ((s, handle_stat shell payload w), true)
    else if bytes_eq id (codes "LIST")
    then ((s, handle_list shell payload w), true)
    else if bytes_eq id (codes "SEND")
    then (handle_send target payload s w, true)
    else if bytes_eq id (codes "RECV")
    then ((s, handle_recv open_channel payload w), true)
    else if bytes_eq id (codes "QUIT")
    then ((s, w), false)
    else ((s, write_sync_fail (codes "hdc backend does not support sync command") w), false)

-- serveSync on fuel, one for a request.
unfoldable pub serve_sync :
    Shell → (Bytes → Result Bytes Pull) → Target → ℕ → Bytes → Writer → Bytes × Writer
unfolding serve_request
serve_sync shell open_channel target zero s w = (s, w)
serve_sync shell open_channel target (suc k) s w = elim (read_sync_request s) [
  | err e ↦ (s, w)
  | ok ((id, payload), rest) ↦
      let r = serve_request shell open_channel target id payload rest w in
      let next = serve_sync shell open_channel target k r.0.0 r.0.1 in if r.1 then next else r.0
]
