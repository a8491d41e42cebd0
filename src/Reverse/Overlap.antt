-- ===== src/Reverse/Overlap.antt =====
-- internal/bridge/reverse.go: reverse commands that overlap.
-- driveOpen of session.go handles a command in a goroutine of its own. The goroutine is cut where it
-- waits for the manager's mutex or for the device; each part runs as a whole.
pub mod Owned
pub mod Sound
pub mod Leak
pub mod Alone
use adb_tcp_bridge.Common.{
  ℕ, zero, suc, Bool, ◌&&◌, Option, none, some, List, [], ◌∷◌, ◌++◌, Bytes, codes, bytes_eq,
  cut_prefix, Result, ok, err, if◌then◌else◌,
}
use adb_tcp_bridge.Strconv.{itoa}
use adb_tcp_bridge.Host.{has_status, status_okay}
use adb_tcp_bridge.Reverse.{
  Mapping, Device, State, new_state, lookup, delete, insert, shut, reverse_fail, killed,
  run_device_reverse, tear_down,
}
use adb_tcp_bridge.Reverse.Forward.{
  resolved_local, take_norebind, parse_forward, is_mapped, list_text, protocol_string, bind,
}

-- What `forward` does after an eviction: it asks the device to forward a local side to its port, or it
-- records its mapping under the resolved side.
pub data After : Type 0 where
  asks : Bytes → Bytes → ℕ → ℕ → After
  records : Bytes → Bytes → ℕ → Bytes → After

-- What a command's goroutine has still to do.
pub data Task : Type 0 where
  -- `forward`, whose listener is bound to a port, before the check for norebind
  checks : Bool → Bytes → Bytes → ℕ → ℕ → Task
  -- evict of a key, before it takes the mutex; then the mapping that it took out is still to be torn down
  evicts : Bytes → After → Task
  tears : Mapping → After → Task
  goes_on : After → Task
  -- kill and killAll with the mappings that they took out
  kills : Bytes → Mapping → Task
  kills_all : List (Bytes × Mapping) → Task
  answered : Bytes → Task

-- The eviction of the resolved side, if it differs from the local side.
abbrev pub resolves : Bytes → Bytes → ℕ → Bytes → Task
resolves local remote h reply =
    let key = resolved_local local reply in
    if bytes_eq key local
    then goes_on (records key remote h reply)
    else evicts key (records key remote h reply)

abbrev pub asked : Bytes → Bytes → ℕ → State × Result Bytes Bytes → State × Task
asked local remote h (st, err e) = (shut h st, answered (reverse_fail e))
asked local remote h (st, ok reply) =
    if has_status reply status_okay
    then (st, resolves local remote h reply)
    else (shut h st, answered reply)

abbrev pub take_out : Bytes → State → Option Mapping → (Mapping → Task) → Task → State × Task
take_out key st none f t = (st, t)
take_out key st (some m) f t = (record st { mappings = delete key st.mappings }, f m)

abbrev pub killed_next : List (Bytes × Mapping) → State × Result Bytes Bytes → State × Task
killed_next ms (st, err e) = (st, answered (reverse_fail e))
killed_next ms (st, ok r) = (st, kills_all ms)

-- A command comes, or the goroutine of a command, the latest being 0, runs its next part.
pub data Event : Type 0 where
  comes : Bytes → Event
  goes : ℕ → Event

module _ (dev : Device) where
  -- One part of a goroutine.
  unfoldable pub advance : Task → State → State × Task
  advance (checks norebind local remote h port) st =
      if is_mapped local st && norebind
      then (shut h st, answered (reverse_fail (codes "cannot rebind existing socket")))
      else (st, evicts local (asks local remote h port))
  advance (evicts key a) st = take_out key st (lookup key st.mappings) (λ m. tears m a) (goes_on a)
  advance (tears m a) st = ((tear_down dev m.local m st).0, goes_on a)
  advance (goes_on (asks local remote h port)) st =
      asked local remote h
        (run_device_reverse dev (codes "forward:" ++ (local ++ (codes ";tcp:" ++ itoa port))) st)
  advance (goes_on (records key remote h reply)) st = (
    record st {
      mappings = insert key (record { local = key; remote = remote; listener = h }) st.mappings;
    },
    answered reply,
  )
  advance (kills local m) st = let r = killed (tear_down dev local m st) in (r.0, answered r.1)
  advance (kills_all []) st = (st, answered status_okay)
  advance (kills_all ((k, m) ∷ ms)) st = killed_next ms (tear_down dev m.local m st)
  advance (answered r) st = (st, answered r)

  abbrev pub begin_forward : Bytes → State → State × Task
  begin_forward spec st =
      let (norebind, spec') = take_norebind spec in
      elim (parse_forward spec') [
        | none ↦ (st, answered (reverse_fail (codes "bad forward: " ++ spec')))
        | some (local, remote) ↦ elim (dev.listen st.next_listener) [
          | err e ↦ (st, answered (reverse_fail (codes "cannot bind listener: " ++ e)))
          | ok port ↦ (bind st, checks norebind local remote st.next_listener port)
        ]
      ]

  abbrev pub begin_kill : Bytes → State → State × Task
  begin_kill local st =
      if bytes_eq local []
      then (st, answered (reverse_fail (codes "bad killforward: " ++ local)))
      else take_out local st (lookup local st.mappings) (λ m. kills local m)
          (answered (reverse_fail (codes "listener '" ++ (local ++ codes "' not found"))))

  -- The first part of `handle` on a command.
  unfoldable pub begin : Bytes → State → State × Task
  begin command st =
      if bytes_eq command (codes "list-forward")
      then (st, answered (protocol_string (list_text st.mappings)))
      else if bytes_eq command (codes "killforward-all")
      then (record st { mappings = [] }, kills_all st.mappings)
      else elim (cut_prefix (codes "killforward:") command) [
        | some local ↦ begin_kill local st
        | none ↦ elim (cut_prefix (codes "forward:") command) [
          | some spec ↦ begin_forward spec st
          | none ↦ (st, answered (reverse_fail (codes "not a reverse forwarding command")))
        ]
      ]

  unfoldable pub advance_at : ℕ → List Task → State → State × List Task
  advance_at n [] st = (st, [])
  advance_at zero (t ∷ ts) st = let (st', t') = advance t st in (st', t' ∷ ts)
  advance_at (suc n) (t ∷ ts) st = let (st', ts') = advance_at n ts st in (st', t ∷ ts')

  unfoldable pub happen : Event → State × List Task → State × List Task
  happen (comes command) (st, ts) = let (st', t) = begin command st in (st', t ∷ ts)
  happen (goes n) (st, ts) = advance_at n ts st

  unfoldable pub overlap : List Event → State × List Task → State × List Task
  overlap [] s = s
  overlap (e ∷ es) s = overlap es (happen e s)
