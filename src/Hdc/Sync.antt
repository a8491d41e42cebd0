-- ===== src/Hdc/Sync.antt =====
-- internal/hdcserver/sync.go: the requests of the sync service, the upload of a file, and the quoting
-- of remote paths; the other answers are in the child modules.
-- An upload runs on fuel, one for a request. The temporary file is a writer, and closing it does not
-- fail; what pushFile then does with its contents is left out.
pub mod Receiving
pub mod Quote
pub mod Remote
pub mod Answers
pub mod Pulling
pub mod Listing
pub mod Pipe
use adb_tcp_bridge.Common.{
  ℕ, zero, suc, ◌+◌, ◌%◌, ◌^◌, Bool, true, false, not, [], ◌∷◌, ◌++◌, Bytes, codes, bytes_eq,
  Result, ok, err, ltb, ◌==◌, if◌then◌else◌, length, take, drop,
}
use adb_tcp_bridge.Common.Word.{le_bytes, le_value}
use adb_tcp_bridge.Stream.{ReadError, read_full, Writer, write, then_write}

-- maxSyncPayloadSize
abbrev pub max_sync_payload_size : ℕ
max_sync_payload_size = 0x100_0000

pub data Error : Type 0 where
  read : ReadError → Error
  payload_too_large : ℕ → Error

-- The id of a request and its payload.
abbrev pub SyncRequest : Type 0
SyncRequest = Bytes × Bytes

-- A request of that id and length; the length of a DONE is not one.
unfoldable pub read_request_payload : Bytes → ℕ → Bytes → Result Error (SyncRequest × Bytes)
read_request_payload id n s =
    if bytes_eq id (codes "DONE")
    then ok ((id, []), s)
    else if ltb max_sync_payload_size n
    then err (payload_too_large n)
    else if not (ltb 0 n)
    then ok ((id, []), s)
    else elim (read_full n s) [
      | err e ↦ err (read e)
      | ok (payload, rest) ↦ ok ((id, payload), rest)
    ]

-- readSyncRequest: the request, and what the reader still holds.
unfoldable pub read_sync_request : Bytes → Result Error (SyncRequest × Bytes)
read_sync_request s = elim (read_full 8 s) [
  | err e ↦ err (read e)
  | ok (header, rest) ↦ read_request_payload (take 4 header) (le_value (drop 4 header)) rest
]

-- writeSyncHeader, with an id of four bytes.
unfoldable pub write_sync_header : Bytes → ℕ → Writer → Writer × Bool
write_sync_header id n w = write (id ++ le_bytes 4 n) w

-- writeSyncData; the length is a uint32, which wraps.
unfoldable pub write_sync_data : Bytes → Writer → Writer × Bool
unfolding write_sync_header
write_sync_data payload w =
    then_write (write_sync_header (codes "DATA") (length payload % 2 ^ 32) w) (write payload)

-- What handleSend does once its loop is over: push the contents of the file, answer with a failure,
-- or return because the client is gone.
pub data Upload : Type 0 where
  push : Bytes → Upload
  file_failed : Upload
  unexpected : Bytes → Upload
  dropped : Upload
  out_of_fuel : Upload

-- The loop of handleSend, with what the reader still holds.
unfoldable pub receive : ℕ → Bytes → Writer → Upload × Bytes
receive zero s file = (out_of_fuel, s)
receive (suc k) s file = elim (read_sync_request s) [
  | err e ↦ (dropped, s)
  | ok ((id, payload), rest) ↦
      let again = receive k rest (write payload file).0 in
      if bytes_eq id (codes "DATA")
      then (if (write payload file).1 then again else (file_failed, rest))
      else if bytes_eq id (codes "DONE")
      then (push file.written, rest)
      else (unexpected id, rest)
]

-- Every request takes eight bytes at least.
abbrev pub receive_upload : Bytes → Writer → Upload × Bytes
receive_upload s file = receive (suc (length s)) s file

-- strings.ReplaceAll(value, "'", "'\\''")
unfoldable pub escape_quotes : Bytes → Bytes
escape_quotes [] = []
escape_quotes (c ∷ cs) =
    if c == b'\'' then codes "'\\''" ++ escape_quotes cs else c ∷ escape_quotes cs

unfoldable pub shell_quote : Bytes → Bytes
unfolding escape_quotes
shell_quote value = b'\'' ∷ (escape_quotes value ++ (b'\'' ∷ []))
