-- ===== src/Hdc/Shell.antt =====
-- internal/hdcserver/shell.go: the packets of the shell protocol v2, and the names of shell services.
-- The output side is in Output.
pub mod Input
pub mod Output
pub mod Delivery
use adb_tcp_bridge.Common.{
  ℕ, zero, suc, ◌+◌, ◌-◌, ◌%◌, ◌^◌, Bool, true, false, not, ◌&&◌, ◌||◌, Option, none, some, List,
  [], ◌∷◌, ◌++◌, Bytes, codes, bytes_eq, cut_prefix, has_prefix, cut, Result, ok, err, ltb, ◌==◌,
  if◌then◌else◌, length, take, drop,
}
use adb_tcp_bridge.Common.Word.{le_bytes, le_value}
use adb_tcp_bridge.Stream.{ReadError, read_full, Writer, write, then_write}

abbrev pub stdin_id : ℕ
stdin_id = 0

abbrev pub stdout_id : ℕ
stdout_id = 1

abbrev pub exit_id : ℕ
exit_id = 3

abbrev pub close_stdin_id : ℕ
close_stdin_id = 4

abbrev pub window_size_id : ℕ
window_size_id = 5

pub record ShellPacket : Type 0 where
  pub stream : ℕ
  pub payload : Bytes

-- The payload behind a header: `if length > 0 { io.ReadFull(r, payload) }`.
unfoldable pub read_payload : ℕ → ℕ → Bytes → Result ReadError (ShellPacket × Bytes)
read_payload stream n s =
    if not (ltb 0 n)
    then ok (record { stream = stream; payload = [] }, s)
    else elim (read_full n s) [
      | err e ↦ err e
      | ok (payload, rest) ↦ ok (record { stream = stream; payload = payload }, rest)
    ]

-- The header's first byte, and the length in the other four.
unfoldable pub read_header : Bytes → Bytes → Result ReadError (ShellPacket × Bytes)
read_header [] s = ok (record { stream = 0; payload = [] }, s)
read_header (stream ∷ size) s = read_payload stream (le_value size) s

-- readShellV2Packet: the packet, and what the reader still holds.
unfoldable pub read_shell_packet : Bytes → Result ReadError (ShellPacket × Bytes)
read_shell_packet s = elim (read_full 5 s) [
  | err e ↦ err e
  | ok (header, rest) ↦ read_header header rest
]

-- writeShellV2Packet; the length is a uint32, which wraps.
unfoldable pub write_shell_packet : ℕ → Bytes → Writer → Writer × Bool
write_shell_packet stream payload w =
    then_write (write (stream ∷ le_bytes 4 (length payload % 2 ^ 32)) w)
      λ w'. if length payload == 0 then (w', true) else write payload w'

-- Why copyShellV2Input ends: its nil, or an error of the reader or the writer.
pub data InputEnd : Type 0 where
  stdin_closed : InputEnd
  read_failed : ReadError → InputEnd
  write_failed : InputEnd
  out_of_fuel : InputEnd

-- What a loop does with a packet: the write of its data, if any.
abbrev pub take_packet : ShellPacket → Writer → Writer × Bool
take_packet p w =
    if p.stream == stdin_id && ltb 0 (length p.payload) then write p.payload w else (w, true)

-- copyShellV2Input on fuel, one for a packet: the writer afterwards, what the reader still holds,
-- and why the loop ended.
unfoldable pub copy_input : ℕ → Bytes → Writer → Writer × (Bytes × InputEnd)
copy_input zero s w = (w, (s, out_of_fuel))
copy_input (suc k) s w = elim (read_shell_packet s) [
  | err e ↦ (w, (s, read_failed e))
  | ok (p, rest) ↦
      let again = copy_input k rest (take_packet p w).0 in
      if p.stream == close_stdin_id
      then (w, (rest, stdin_closed))
      else if (take_packet p w).1
      then again
      else ((take_packet p w).0, (rest, write_failed))
]

-- Every packet takes five bytes at least.
abbrev pub copy_shell_input : Bytes → Writer → Writer × (Bytes × InputEnd)
copy_shell_input s w = copy_input (suc (length s)) s w

pub record ShellSpec : Type 0 where
  pub command : Bytes
  pub v2 : Bool

-- `strings.Split(prefix, ",")`, compared part by part; `part` is what was read of the first part.
unfoldable pub has_part : Bytes → Bytes → Bytes → Bool
has_part option part [] = bytes_eq part option
has_part option part (c ∷ cs) =
    let next = has_part option [] cs in
    let longer = has_part option (part ++ (c ∷ [])) cs in
    if c == b',' then (if bytes_eq part option then true else next) else longer

-- shellServiceHasOption
abbrev pub has_option : Bytes → Bytes → Bool
has_option prefix option = has_part option [] prefix

-- parseShellService
unfoldable pub parse_shell_service : Bytes → Option ShellSpec
unfolding has_part
parse_shell_service service = elim (cut_prefix (codes "exec:") service) [
  | some command ↦ some (record { command = command; v2 = false })
  | none ↦ if not (has_prefix (codes "shell") service) then none else elim (cut b':' service) [
    | none ↦ none
    | some (prefix, command) ↦
        if not (bytes_eq prefix (codes "shell")) && not (has_prefix (codes "shell,") prefix)
        then none
        else some (record { command = command; v2 = has_option prefix (codes "v2") })
  ]
]
