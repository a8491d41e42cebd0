-- ===== src/Daemon/Handoff.antt =====
-- internal/daemon/upgrade_unix.go: the handoff of the listeners to a new daemon, and how that daemon
-- takes them over.
-- A file descriptor is a number; which listener a descriptor gives in the new daemon, the outcomes of
-- the calls to the operating system, and the text of the restore state are parameters.
pub mod Spec
pub mod Takeover
pub mod Restored
pub mod Outcome
pub mod Kept
pub mod Served
use adb_tcp_bridge.Common.{
  ℕ, zero, suc, ◌+◌, ◌-◌, Bool, true, false, not, ◌&&◌, ◌||◌, Option, none, some, List, [], ◌∷◌,
  ◌++◌, map, Bytes, codes, bytes_eq, Result, ok, err, ltb, ◌==◌, if◌then◌else◌, length, has_prefix,
}
use adb_tcp_bridge.Strconv.{itoa}
use adb_tcp_bridge.Strconv.Decimal.{ℤ, pos, negsuc, atoi}
use adb_tcp_bridge.Strings.{trim_space, split_on, join_by}
use adb_tcp_bridge.Daemon.Manager.{BridgeRestore, Manager, snapshot}
use adb_tcp_bridge.Daemon.Manager
use adb_tcp_bridge.Daemon.Handler.{Server, cancel_root}
use adb_tcp_bridge.Daemon.Preparing.{Machine, adopt}

-- The descriptors of exec.Cmd.ExtraFiles begin at 3.
abbrev pub first_fd : ℕ
first_fd = 3

-- The descriptors of k files, from one on.
abbrev pub fds_from : ℕ → ℕ → List ℕ
fds_from fd zero = []
fds_from fd (suc k) = fd ∷ fds_from (suc fd) k

-- `strings.Join(fdSpec, ",")` for k files
unfoldable pub fd_spec : ℕ → Bytes
fd_spec k = join_by b',' (map itoa (fds_from first_fd k))

pub data Error : Type 0 where
  too_few_fds : Bytes → Error
  invalid_fd : Bytes → Error
  count_differs : ℕ → ℕ → Error
  tcp_failed : Bytes → Error
  adopt_failed : Manager.Error → Error
  control_failed : Bytes → Error

abbrev pub usable_fd : Option ℤ → Option ℕ
usable_fd none = none
usable_fd (some (negsuc n)) = none
usable_fd (some (pos n)) = if ltb n 3 then none else some n

unfoldable pub parse_fds : List Bytes → Result Error (List ℕ)
parse_fds [] = ok []
parse_fds (part ∷ parts) = elim (usable_fd (atoi (trim_space part))) [
  | none ↦ err (invalid_fd part)
  | some fd ↦ elim (parse_fds parts) [ err e ↦ err e | ok fds ↦ ok (fd ∷ fds) ]
]

-- ParseInheritFds
unfoldable pub parse_inherit_fds : Bytes → Result Error (List ℕ)
unfolding parse_fds
parse_inherit_fds spec =
    let parts = split_on b',' spec in
    if ltb (length parts) 2 then err (too_few_fds spec) else parse_fds parts

-- What net.FileListener makes of a descriptor: a listener, or the text of an error.
abbrev pub Inherited : Type 0
Inherited = ℕ → Result Bytes ℕ

-- A bridge that is not adopted has its listener closed.
abbrev pub adopted :
    ℕ
    → Manager × Result Manager.Error Manager.BridgeInfo
    → (Manager → Manager × Option Error)
    → Manager × Option Error
adopted l (m, err e) k = (record m { closed = l ∷ m.closed }, some (adopt_failed e))
adopted l (m, ok info) k = k m

-- The loop over the descriptors of the bridges, which stand beside their states.
unfoldable pub adopt_all :
    Machine → Inherited → List ℕ → List BridgeRestore → Manager → Manager × Option Error
adopt_all machine inherited [] state m = (m, none)
adopt_all machine inherited (fd ∷ fds) [] m = (m, none)
adopt_all machine inherited (fd ∷ fds) (r ∷ state) m = elim (inherited fd) [
  | err e ↦ (m, some (tcp_failed e))
  | ok l ↦ adopted l (adopt machine r l m) (λ m'. adopt_all machine inherited fds state m')
]

-- `fds[1 : len(fds)-1]`, without the first
abbrev pub without_last : List ℕ → List ℕ
without_last [] = []
without_last (fd ∷ []) = []
without_last (fd ∷ fd' ∷ fds) = fd ∷ without_last (fd' ∷ fds)

abbrev pub take_control : Inherited → ℕ → Manager × Option Error → Manager × Result Error ℕ
take_control inherited fd (m, some e) = (m, err e)
take_control inherited fd (m, none) = elim (inherited fd) [
  | err e ↦ (m, err (control_failed e))
  | ok l ↦ (m, ok l)
]

-- RestoreInherited: the manager afterwards, and the control listener or an error. The ready byte is
-- written if and only if there is no error; an empty list of descriptors, which ParseInheritFds never
-- gives, is taken for a list of too few.
unfoldable pub restore_inherited :
    Machine → Inherited → List ℕ → List BridgeRestore → Manager → Manager × Result Error ℕ
unfolding adopt_all
restore_inherited machine inherited [] state m = (m, err (too_few_fds []))
restore_inherited machine inherited (control ∷ fds) state m =
    let tcp = without_last fds in
    if not (length tcp == length state)
    then (m, err (count_differs (length tcp) (length state)))
    else take_control inherited control (adopt_all machine inherited tcp state m)

-- What a handoff meets, in the order of the code: finding the executable, the control listener and its
-- duplicate, duplicating a bridge's listener, the pipe, encoding the state, starting the process,
-- setting the deadline, and the byte that is read from the pipe, or none for EOF, the deadline or an error.
pub record World : Type 0 where
  pub has_executable : Bool
  pub has_control : Bool
  pub dups_control : Bool
  pub dups : ℕ → Bool
  pub has_pipe : Bool
  pub encode : List BridgeRestore → Option Bytes
  pub starts : Bool
  pub sets_deadline : Bool
  pub ready_byte : Option ℕ

-- What the handoff leaves: the server, whether closing the control listener unlinks the socket file,
-- whether the listeners are handed over, the spec and the state that a new daemon was started with,
-- and whether that daemon was killed.
pub record Handoff : Type 0 where
  pub server : Server
  pub unlinks : Bool
  pub handed_off : Bool
  pub started_with : Option (Bytes × Bytes)
  pub is_killed : Bool

-- failHandoff, before a new daemon is started and afterwards
abbrev pub fail_handoff : Bool → Server → Handoff
fail_handoff unlinks s = record {
  server = record s { restarting = false };
  unlinks = unlinks;
  handed_off = false;
  started_with = none;
  is_killed = false;
}

abbrev pub fail_started : Bool → Server → Bytes × Bytes → Handoff
fail_started unlinks s args = record (fail_handoff unlinks s) {
  started_with = some args;
  is_killed = true;
}

abbrev pub all_dup : (ℕ → Bool) → List (BridgeRestore × ℕ) → Bool
all_dup dups [] = true
all_dup dups ((r, l) ∷ snap) = dups l && all_dup dups snap

abbrev pub is_ready : Option ℕ → Bool
is_ready none = false
is_ready (some b) = b == 1

-- The handoff from the start of the new daemon on.
unfoldable pub await_ready : World → Bytes × Bytes → Bool → Server → Handoff
await_ready world args unlinks s =
    if not world.starts
    then fail_handoff unlinks s
    else if not world.sets_deadline
    then fail_started unlinks s args
    else if not (is_ready world.ready_byte)
    then fail_started unlinks s args
    else record {
      server = cancel_root s;
      unlinks = unlinks;
      handed_off = true;
      started_with = some args;
      is_killed = false;
    }

-- handoff, for a request with this path of a binary, and whether closing the control listener unlinks
-- the socket file before it. SetUnlinkOnClose(false) is never taken back. The files are the control
-- listener, one for each bridge, and the pipe.
unfoldable pub handoff : World → Bytes → Bool → Server → Handoff
unfolding await_ready
handoff world binary unlinks s =
    let snap = snapshot s.manager in
    if bytes_eq binary [] && not world.has_executable
    then fail_handoff unlinks s
    else if not world.has_control
    then fail_handoff unlinks s
    else let unlinks' = false in
      if not world.dups_control
      then fail_handoff unlinks' s
      else if not (all_dup world.dups snap)
      then fail_handoff unlinks' s
      else if not world.has_pipe
      then fail_handoff unlinks' s
      else elim (world.encode (map (λ item. item.0) snap)) [
        | none ↦ fail_handoff unlinks' s
        | some state ↦ await_ready world (fd_spec (length snap + 2), state) unlinks' s
      ]
