-- ===== src/Hdc/Sync/Remote.antt =====
-- internal/hdcserver/sync.go: what is known of files on the device. The shell commands that ask for it
-- are texts, and their output is parsed line by line.
use adb_tcp_bridge.Common.{
  ℕ, Bool, not, ◌||◌, Option, none, some, List, [], ◌∷◌, ◌++◌, Bytes, codes, bytes_eq, has_prefix,
  cut, Result, ok, err, if◌then◌else◌,
}
use adb_tcp_bridge.Strconv.{Parsed, value, parse_uint}
use adb_tcp_bridge.Strings.{trim_space, scan_lines}
use adb_tcp_bridge.Hdc.Sync.{shell_quote}

-- 0o100644 and 0o040755
abbrev pub file_mode : ℕ
file_mode = 0x81a4

abbrev pub dir_mode : ℕ
dir_mode = 0x41ed

pub record RemoteEntry : Type 0 where
  pub name : Bytes
  pub mode : ℕ
  pub size : ℕ
  pub mtime : ℕ

abbrev pub no_entry : RemoteEntry
no_entry = record { name = []; mode = 0; size = 0; mtime = 0 }

-- The errors of the parser, of a missing file, of the scanner, and of the hdc server, as texts.
pub data RemoteError : Type 0 where
  invalid_entry invalid_size invalid_mtime invalid_type : RemoteError
  not_exist : RemoteError
  line_too_long : RemoteError
  command_failed : Bytes → RemoteError

-- The parts of strings.SplitN(line, "\t", 4): the first three, and the fourth or the empty text.
unfoldable pub entry_parts : Bytes → Option (Bytes × Bytes × Bytes × Bytes)
entry_parts line = elim (cut b'\t' line) [
  | none ↦ none
  | some (a, s) ↦ elim (cut b'\t' s) [
    | none ↦ none
    | some (b, t) ↦ elim (cut b'\t' t) [
      | none ↦ some (a, b, t, [])
      | some (c, name) ↦ some (a, b, c, name)
    ]
  ]
]

unfoldable pub entry_mode : Bytes → Option ℕ
entry_mode type =
    if bytes_eq type (codes "d")
    then some dir_mode
    else if bytes_eq type (codes "f")
    then some file_mode
    else none

-- The entry, once the size and the time were parsed.
unfoldable pub make_entry : Bytes → Bytes → Parsed → Parsed → Result RemoteError RemoteEntry
unfolding entry_mode
make_entry type name (value size) (value mtime) = elim (entry_mode type) [
  | none ↦ err invalid_type
  | some mode ↦ ok (record { name = name; mode = mode; size = size; mtime = mtime })
]
make_entry type name (value size) _ = err invalid_mtime
make_entry type name _ _ = err invalid_size

unfoldable pub parse_remote_entry : Bytes → Result RemoteError RemoteEntry
unfolding entry_parts make_entry
parse_remote_entry line = elim (entry_parts line) [
  | none ↦ err invalid_entry
  | some (type, size, mtime, name) ↦
      make_entry type name (parse_uint 10 64 size) (parse_uint 10 32 mtime)
]

abbrev pub remote_stat_command : Bytes → Bytes
remote_stat_command remote =
    codes "p="
    ++ (shell_quote remote
        ++ codes
            "; if [ -d \"$p\" ]; then printf 'd\\t0\\t0\\n'; elif [ -f \"$p\" ]; then s=$(wc -c < \"$p\" 2>/dev/null | tr -d ' '); printf 'f\\t%s\\t0\\n' \"$s\"; else printf 'n\\t0\\t0\\n'; fi")

abbrev pub remote_list_command : Bytes → Bytes
remote_list_command remote =
    codes "d="
    ++ (shell_quote remote
        ++ codes
            "; for f in \"$d\"/* \"$d\"/.[!.]* \"$d\"/..?*; do [ -e \"$f\" ] || continue; b=${f##*/}; if [ -d \"$f\" ]; then printf 'd\\t0\\t0\\t%s\\n' \"$b\"; elif [ -f \"$f\" ]; then s=$(wc -c < \"$f\" 2>/dev/null | tr -d ' '); printf 'f\\t%s\\t0\\t%s\\n' \"$s\" \"$b\"; fi; done")

abbrev pub pull_file_command : Bytes → Bytes
pull_file_command remote =
    let quoted = shell_quote remote in
    codes "if [ -r "
    ++ (quoted
        ++ (codes " ] && [ -f "
            ++ (quoted
                ++ (codes " ]; then printf '\\001OK\\002'; cat "
                    ++ (quoted
                        ++ (codes "; else printf '\\001NO\\002'; printf "
                            ++ (shell_quote (
                                  codes "remote open "
                                  ++ (remote ++ codes ": no such file or directory"))
                                ++ codes "; fi")))))))

-- The entry of the output of remoteStatCommand.
unfoldable pub stat_entry : Bytes → Result RemoteError RemoteEntry
unfolding parse_remote_entry
stat_entry output =
    let line = trim_space output in
    if bytes_eq line [] || has_prefix (codes "n\t") line
    then err not_exist
    else parse_remote_entry line

abbrev pub is_listed : RemoteEntry → Bool
is_listed e =
    not (bytes_eq e.name (codes ".") || (bytes_eq e.name (codes "..") || bytes_eq e.name []))

abbrev pub add_entry :
    RemoteEntry → Result RemoteError (List RemoteEntry) → Result RemoteError (List RemoteEntry)
add_entry e (err x) = err x
add_entry e (ok es) = ok (if is_listed e then e ∷ es else es)

-- The loop over the lines; the first bad line ends it.
unfoldable pub list_entries : Bool → List Bytes → Result RemoteError (List RemoteEntry)
unfolding parse_remote_entry
list_entries fine [] = if fine then ok [] else err line_too_long
list_entries fine (text ∷ lines) =
    let line = trim_space text in
    let rest = list_entries fine lines in
    if bytes_eq line []
    then rest
    else elim (parse_remote_entry line) [ err e ↦ err e | ok e ↦ add_entry e rest ]

-- The entries of the output of remoteListCommand.
unfoldable pub listing : Bytes → Result RemoteError (List RemoteEntry)
unfolding list_entries
listing output = let (lines, fine) = scan_lines output in list_entries fine lines

-- The device's shell behind the hdc server: the output of a command, or an error.
abbrev pub Shell : Type 0
Shell = Bytes → Result Bytes Bytes

-- remotePathInfo; the name that it puts into its entry, path.Base of the path, is in no answer and is
-- left out.
unfoldable pub remote_path_info : Shell → Bytes → Result RemoteError RemoteEntry
unfolding stat_entry
remote_path_info shell remote = elim (shell (codes "shell " ++ remote_stat_command remote)) [
  | err e ↦ err (command_failed e)
  | ok output ↦ stat_entry output
]

unfoldable pub remote_list : Shell → Bytes → Result RemoteError (List RemoteEntry)
unfolding listing
remote_list shell remote = elim (shell (codes "shell " ++ remote_list_command remote)) [
  | err e ↦ err (command_failed e)
  | ok output ↦ listing output
]
