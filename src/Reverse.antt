-- ===== src/Reverse.antt =====
-- internal/bridge/reverse.go: the reverse forwards of a session.
-- The map of mappings is an association list; the order in which Go walks a map is the list's. The
-- listeners on 127.0.0.1 are handles, and the state keeps those that are open. The device and the
-- network are parameters: what they answer may depend on how often they were asked before.
pub mod Forward
pub mod Listeners
pub mod Tidy
pub mod Handling
pub mod Draining
pub mod Overlap
use adb_tcp_bridge.Common.{
  ℕ, suc, ◌+◌, Bool, true, false, not, ◌&&◌, ◌||◌, Option, none, some, List, [], ◌∷◌, ◌++◌, Bytes,
  codes, bytes_eq, cut_prefix, has_prefix, Result, ok, err, ltb, ◌==◌, if◌then◌else◌, length,
}
use adb_tcp_bridge.Strconv.{itoa}
use adb_tcp_bridge.Host.{encode_frame, fail_message, has_status, parse_length_prefixed, status_okay}

pub record Mapping : Type 0 where
  pub local : Bytes
  pub remote : Bytes
  pub listener : ℕ

-- The outcome of OpenService("reverse:" + command) and io.ReadAll: no connection, a response whose
-- reading broke off, or the whole response. Errors carry their texts.
pub data Reply : Type 0 where
  no_service : Bytes → Reply
  broken : Bytes → Reply
  response : Bytes → Reply

-- What the session is given: the backend, if it has one, and net.Listen. A listener that could be
-- bound comes with its port.
pub record Device : Type 0 where
  pub has_backend : Bool
  pub respond : ℕ → Bytes → Reply
  pub listen : ℕ → Result Bytes ℕ

pub record State : Type 0 where
  pub mappings : List (Bytes × Mapping)
  -- the listeners that are open, and the number of those ever made
  pub listeners : List ℕ
  pub next_listener : ℕ
  -- the commands that the device was sent
  pub commands : List Bytes
  -- the results handed to OnBackendResult
  pub reports : List Bool

unfoldable pub new_state : State
new_state = record { mappings = []; listeners = []; next_listener = 0; commands = []; reports = [] }

unfoldable pub lookup : Bytes → List (Bytes × Mapping) → Option Mapping
lookup key [] = none
lookup key ((k, m) ∷ ms) = if bytes_eq k key then some m else lookup key ms

unfoldable pub delete : Bytes → List (Bytes × Mapping) → List (Bytes × Mapping)
delete key [] = []
delete key ((k, m) ∷ ms) = if bytes_eq k key then delete key ms else (k, m) ∷ delete key ms

unfoldable pub insert : Bytes → Mapping → List (Bytes × Mapping) → List (Bytes × Mapping)
insert key m ms = (key, m) ∷ delete key ms

-- listener.Close
unfoldable pub close_listener : ℕ → List ℕ → List ℕ
close_listener h [] = []
close_listener h (x ∷ xs) = if x == h then close_listener h xs else x ∷ close_listener h xs

abbrev pub shut : ℕ → State → State
shut h st = record st { listeners = close_listener h st.listeners }

abbrev pub report : Bool → State → State
report fine st = record st { reports = st.reports ++ (fine ∷ []) }

abbrev pub reverse_fail : Bytes → Bytes
reverse_fail = fail_message

unfoldable pub read_reply : State → Reply → State × Result Bytes Bytes
read_reply st (no_service e) = (report false st, err e)
read_reply st (broken e) = (st, err e)
read_reply st (response r) = (report true st, ok r)

unfoldable pub killed : State × Result Bytes Bytes → State × Bytes
killed (st, err e) = (st, reverse_fail e)
killed (st, ok r) = (st, r)

module _ (dev : Device) where
  unfoldable pub run_device_reverse : Bytes → State → State × Result Bytes Bytes
  run_device_reverse command st =
      if not dev.has_backend
      then (st, err (codes "device backend is unavailable"))
      else read_reply (record st { commands = st.commands ++ (command ∷ []) })
          (dev.respond (length st.commands) (codes "reverse:" ++ command))

  -- Close the listener of a mapping and tell the device to kill the forward.
  unfoldable pub tear_down : Bytes → Mapping → State → State × Result Bytes Bytes
  tear_down local m st = run_device_reverse (codes "killforward:" ++ local) (shut m.listener st)

  unfoldable pub evict : Bytes → State → State
  evict key st = elim (lookup key st.mappings) [
    | none ↦ st
    | some m ↦ (tear_down m.local m (record st { mappings = delete key st.mappings })).0
  ]

  unfoldable pub kill : Bytes → State → State × Bytes
  kill local st =
      if bytes_eq local []
      then (st, reverse_fail (codes "bad killforward: " ++ local))
      else elim (lookup local st.mappings) [
        | none ↦ (st, reverse_fail (codes "listener '" ++ (local ++ codes "' not found")))
        | some m ↦ killed (tear_down local m (record st { mappings = delete local st.mappings }))
      ]

  -- The loop of killAll over the drained mappings: it stops at the first error.
  unfoldable pub kill_drained : List (Bytes × Mapping) → State → State × Bytes
  kill_drained [] st = (st, status_okay)
  kill_drained ((k, m) ∷ ms) st = elim ((tear_down m.local m st).1) [
    | err e ↦ ((tear_down m.local m st).0, reverse_fail e)
    | ok r ↦ kill_drained ms (tear_down m.local m st).0
  ]

  unfoldable pub kill_all : State → State × Bytes
  unfolding kill_drained
  kill_all st = kill_drained st.mappings (record st { mappings = [] })

  -- The loop of closeAll goes on after an error.
  unfoldable pub close_drained : List (Bytes × Mapping) → State → State
  close_drained [] st = st
  close_drained ((k, m) ∷ ms) st = close_drained ms (tear_down m.local m st).0

  unfoldable pub close_all : State → State
  unfolding close_drained
  close_all st =
      if not dev.has_backend then st else close_drained st.mappings (record st { mappings = [] })
