-- ===== src/Host/Properties.antt =====
-- internal/adbhost/client.go: RunService, and ReadProperties with its parser of getprop's output.
-- A map of properties is an association list, with the last assignment in front. A service's stream
-- ends in EOF.
pub mod Printed
use adb_tcp_bridge.Common.{
  Bool, true, false, not, Option, none, some, List, [], ◌∷◌, Bytes, codes, bytes_eq, has_prefix,
  Result, ok, err, if◌then◌else◌,
}
use adb_tcp_bridge.Strings.{trim_space, trim_prefix, trim_suffix, split_two, scan_lines}
use adb_tcp_bridge.Host.{Error}
use adb_tcp_bridge.Host.Dialogue.{Conn, Opened, no_conn, closed_conn, opened, open_service}

abbrev pub Properties : Type 0
Properties = List (Bytes × Bytes)

unfoldable pub property : Bytes → Properties → Option Bytes
property key [] = none
property key ((k, v) ∷ ps) = if bytes_eq k key then some v else property key ps

unfoldable pub parse_getprop_line : Bytes → Option (Bytes × Bytes)
parse_getprop_line text =
    let line = trim_space text in
    if not (has_prefix (codes "[") line) then none else elim (split_two (codes "]: [") line) [
      | none ↦ none
      | some (front, back) ↦
          let key = trim_prefix (codes "[") front in
          if bytes_eq key [] then none else some (key, trim_suffix b']' back)
    ]

-- The loop over the lines.
unfoldable pub parse_lines : Properties → List Bytes → Properties
unfolding parse_getprop_line
parse_lines ps [] = ps
parse_lines ps (line ∷ lines) =
    parse_lines (elim (parse_getprop_line line) [ none ↦ ps | some kv ↦ kv ∷ ps ]) lines

-- Either the scanner's error, or an error of the service.
pub data PropertyError : Type 0 where
  line_too_long : PropertyError
  host : Error → PropertyError

abbrev pub scanned : List Bytes × Bool → Result PropertyError Properties
scanned (lines, fine) = if fine then ok (parse_lines [] lines) else err line_too_long

unfoldable pub parse_getprop : Bytes → Result PropertyError Properties
unfolding parse_lines
parse_getprop output = scanned (scan_lines output)

unfoldable pub run_service : Option Conn → Bytes → Bytes → Result Error Bytes
run_service dialled serial service = elim (open_service dialled serial service) [
  | no_conn e ↦ err e
  | closed_conn c e ↦ err e
  | opened c ↦ ok c.incoming
]

unfoldable pub read_properties : Option Conn → Bytes → Result PropertyError Properties
read_properties dialled serial = elim (open_service dialled serial (codes "shell:getprop")) [
  | no_conn e ↦ err (host e)
  | closed_conn c e ↦ err (host e)
  | opened c ↦ parse_getprop c.incoming
]
