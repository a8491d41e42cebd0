-- ===== src/Hdc/Services.antt =====
-- internal/hdcserver/backend.go: which of its services the hdc backend opens for a service of adb.
use adb_tcp_bridge.Common.{none, some, Bytes, codes, bytes_eq, if◌then◌else◌}
use adb_tcp_bridge.Hdc.Shell.{ShellSpec, parse_shell_service}
use adb_tcp_bridge.Hdc.Forward.{parse_forward_service}

-- openSync, openShell, openForward to a node of the device, or the error.
pub data Choice : Type 0 where
  sync : Choice
  shell : ShellSpec → Choice
  forward : Bytes → Choice
  unsupported : Bytes → Choice

-- OpenService
unfoldable pub choose_service : Bytes → Choice
choose_service service =
    if bytes_eq service (codes "sync:") then sync else elim (parse_shell_service service) [
      | some spec ↦ shell spec
      | none ↦ elim (parse_forward_service service) [
        | some node ↦ forward node
        | none ↦ unsupported service
      ]
    ]

-- addr
unfoldable pub server_addr : Bytes → Bytes
server_addr addr = if bytes_eq addr (codes "") then codes "127.0.0.1:8710" else addr
