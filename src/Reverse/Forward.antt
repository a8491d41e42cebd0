-- ===== src/Reverse/Forward.antt =====
-- internal/bridge/reverse.go: `forward`, `list` and the dispatch of `handle`, for a command that overlaps
-- with no other; the code runs commands in goroutines, whose parts are in Reverse/Overlap.
use adb_tcp_bridge.Common.{
  ℕ, suc, Bool, true, false, not, ◌&&◌, ◌||◌, Option, none, some, List, [], ◌∷◌, ◌++◌, Bytes, codes,
  bytes_eq, cut_prefix, has_prefix, cut, Result, ok, err, if◌then◌else◌,
}
use adb_tcp_bridge.Strconv.{itoa}
use adb_tcp_bridge.Host.{encode_frame, has_status, parse_length_prefixed, status_okay}
use adb_tcp_bridge.Reverse.{
  Mapping, Device, State, lookup, insert, shut, reverse_fail, run_device_reverse, evict, kill,
  kill_all,
}

-- resolvedReverseLocal
unfoldable pub resolved_local : Bytes → Bytes → Bytes
resolved_local local reply =
    if not (bytes_eq local (codes "tcp:0")) || not (has_status reply status_okay)
    then local
    else elim (parse_length_prefixed reply 4) [ none ↦ local | some port ↦ codes "tcp:" ++ port ]

-- The flag norebind, and the rest of the specification.
unfoldable pub take_norebind : Bytes → Bool × Bytes
take_norebind spec = elim (cut_prefix (codes "norebind:") spec) [
  | none ↦ (false, spec)
  | some rest ↦ (true, rest)
]

-- The local and remote side, unless the specification is bad.
unfoldable pub parse_forward : Bytes → Option (Bytes × Bytes)
parse_forward spec = elim (cut b';' spec) [
  | none ↦ none
  | some (local, remote) ↦
      if bytes_eq local [] || (bytes_eq remote [] || has_prefix (codes "*") remote)
      then none
      else some (local, remote)
]

abbrev pub is_mapped : Bytes → State → Bool
is_mapped key st = elim (lookup key st.mappings) [ none ↦ false | some _ ↦ true ]

-- `list`, as the text that is sent.
unfoldable pub list_text : List (Bytes × Mapping) → Bytes
list_text [] = []
list_text ((k, m) ∷ ms) =
    codes "host " ++ (m.local ++ (b' ' ∷ (m.remote ++ (b'\n' ∷ list_text ms))))

unfoldable pub protocol_string : Bytes → Bytes
protocol_string text = elim (encode_frame text) [
  | err e ↦ reverse_fail (codes "adb host frame too large")
  | ok frame ↦ frame
]

-- The state with a new open listener.
abbrev pub bind : State → State
bind st = record st {
  listeners = st.next_listener ∷ st.listeners;
  next_listener = suc st.next_listener;
}

module _ (dev : Device) where
  -- The end of `forward`: the mapping is recorded under the local side that the device resolved.
  unfoldable pub record_mapping : Bytes → Bytes → ℕ → Bytes → State → State
  record_mapping local remote h reply st =
      let key = resolved_local local reply in
      let st' = if bytes_eq key local then st else evict dev key st in
      record st' {
        mappings = insert key (record { local = key; remote = remote; listener = h }) st'.mappings;
      }

  -- `forward` with the device's answer to its own forward command.
  unfoldable pub device_answered : Bytes → Bytes → ℕ → State × Result Bytes Bytes → State × Bytes
  device_answered local remote h (st, err e) = (shut h st, reverse_fail e)
  device_answered local remote h (st, ok reply) =
      if has_status reply status_okay
      then (record_mapping local remote h reply st, reply)
      else (shut h st, reply)

  -- `forward` once its listener h is bound to a port.
  unfoldable pub forward_bound : Bool → Bytes → Bytes → ℕ → ℕ → State → State × Bytes
  forward_bound norebind local remote h port st =
      if is_mapped local st && norebind
      then (shut h st, reverse_fail (codes "cannot rebind existing socket"))
      else device_answered local remote h (
          run_device_reverse dev (codes "forward:" ++ (local ++ (codes ";tcp:" ++ itoa port)))
            (evict dev local st))

  unfoldable pub forward_parsed : Bool → Bytes → Bytes → State → State × Bytes
  forward_parsed norebind local remote st = elim (dev.listen st.next_listener) [
    | err e ↦ (st, reverse_fail (codes "cannot bind listener: " ++ e))
    | ok port ↦ forward_bound norebind local remote st.next_listener port (bind st)
  ]

  unfoldable pub forward : Bytes → State → State × Bytes
  forward spec st =
      let (norebind, spec') = take_norebind spec in
      elim (parse_forward spec') [
        | none ↦ (st, reverse_fail (codes "bad forward: " ++ spec'))
        | some (local, remote) ↦ forward_parsed norebind local remote st
      ]

  unfoldable pub handle_prefixed : Bytes → State → State × Bytes
  handle_prefixed command st = elim (cut_prefix (codes "killforward:") command) [
    | some local ↦ kill dev local st
    | none ↦ elim (cut_prefix (codes "forward:") command) [
      | some spec ↦ forward spec st
      | none ↦ (st, reverse_fail (codes "not a reverse forwarding command"))
    ]
  ]

  unfoldable pub handle : Bytes → State → State × Bytes
  handle command st =
      if bytes_eq command (codes "list-forward")
      then (st, protocol_string (list_text st.mappings))
      else if bytes_eq command (codes "killforward-all")
      then kill_all dev st
      else handle_prefixed command st
