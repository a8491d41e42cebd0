-- ===== src/Daemon/Accepting.antt =====
-- internal/daemon/server.go: Run, with its loop over the connections of the control socket, and
-- prepareSocket.
-- A connection is handled by a goroutine of its own: the loop goes on before the request is handled.
-- The outcomes of the calls to the operating system are parameters.
pub mod Late
use adb_tcp_bridge.Common.{
  ℕ, zero, suc, ◌+◌, Bool, true, false, not, Option, none, some, List, [], ◌∷◌, ◌++◌, Bytes,
  if◌then◌else◌,
}
use adb_tcp_bridge.Daemon.Manager.{Manager, stop_all}
use adb_tcp_bridge.Daemon.Handler.{Request, Response, Server, Platform, handle_request}

-- The socket file: os.Stat finds none, fails otherwise, or finds it.
pub data Stat : Type 0 where
  not_exist stat_failed exists : Stat

pub data Socket : Type 0 where
  bound inherited stat_error already_running remove_error listen_error dir_error : Socket

-- What prepareSocket finds, where `none` is no error: whether a daemon answers the dial, and whether
-- a stale file can be removed.
unfoldable pub prepare_socket : Stat → Bool → Bool → Option Socket
prepare_socket not_exist answers removes = none
prepare_socket stat_failed answers removes = some stat_error
prepare_socket exists answers removes =
    if answers then some already_running else if not removes then some remove_error else none

-- The control listener of Run.
unfoldable pub control_socket : Bool → Bool → Stat → Bool → Bool → Bool → Socket
unfolding prepare_socket
control_socket is_inherited makes_dir stat answers removes listens =
    if is_inherited
    then inherited
    else if not makes_dir
    then dir_error
    else elim (prepare_socket stat answers removes) [
      | some e ↦ e
      | none ↦ if listens then bound else listen_error
    ]

pub data Loop : Type 0 where
  -- at the head of the loop, in Accept, or past the loop
  checking accepting ended : Loop

-- Run with its goroutines: the requests of accepted connections that are not handled yet, and the
-- responses that were written.
pub record Runner : Type 0 where
  pub server : Server
  pub loop : Loop
  pub pending : List Request
  pub answered : List Response

pub data Event : Type 0 where
  -- the head of the loop is run
  looks : Event
  -- Accept returns a connection on which this request comes, or an error
  accepts : Request → Event
  accept_fails : Event
  -- the goroutine of a pending request, the first being 0, handles it
  handles : ℕ → Event

abbrev pub look : Bool → Bool → Loop
look true true = ended
look true false = checking
look false cancelled = accepting

abbrev pub take_at : ℕ → List Request → Option (Request × List Request)
take_at n [] = none
take_at zero (q ∷ qs) = some (q, qs)
take_at (suc n) (q ∷ qs) = elim (take_at n qs) [ none ↦ none | some (p, ps) ↦ some (p, q ∷ ps) ]

abbrev pub handled : Platform → Option (Request × List Request) → Runner → Runner
handled platform none r = r
handled platform (some (q, qs)) r =
    let h = handle_request platform q r.server in
    record r { server = h.0; pending = qs; answered = r.answered ++ (h.1 ∷ []) }

abbrev pub looked : Loop → Runner → Runner
looked checking r = record r { loop = look r.server.restarting r.server.is_cancelled }
looked accepting r = r
looked ended r = r

-- While the loop is not in Accept, a connection waits in the listener.
abbrev pub accepted : Request → Loop → Runner → Runner
accepted q accepting r = record r { loop = checking; pending = r.pending ++ (q ∷ []) }
accepted q checking r = r
accepted q ended r = r

abbrev pub accept_failed : Loop → Runner → Runner
accept_failed accepting r = record r { loop = ended }
accept_failed checking r = r
accept_failed ended r = r

unfoldable pub step : Platform → Event → Runner → Runner
step platform looks r = looked r.loop r
step platform (accepts q) r = accepted q r.loop r
step platform accept_fails r = accept_failed r.loop r
step platform (handles n) r = handled platform (take_at n r.pending) r

unfoldable pub run : Platform → List Event → Runner → Runner
unfolding step
run platform [] r = r
run platform (e ∷ es) r = run platform es (step platform e r)

-- The deferred end of Run: whether the socket file is removed, and the bridges afterwards. The listener
-- is closed first, which removes the file if it unlinks it; os.Remove and StopAll follow unless the
-- listeners were handed over.
unfoldable pub exit_run : Bool → Bool → Manager → Bool × Manager
exit_run handed_off unlinks m = if not handed_off then (true, stop_all m) else (unlinks, m)
