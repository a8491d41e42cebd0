-- ===== src/Reverse/Overlap/Leak.antt =====
-- Two forwards of the same local side that overlap.
use adb_tcp_bridge.Common.{ℕ, true, [], ◌∷◌, ◌++◌, Bytes, codes}
use adb_tcp_bridge.Strconv.{itoa}
use adb_tcp_bridge.Reverse.{Mapping, State, insert, report}

-- After a command to the device that it answered.
abbrev told : Bytes → State → State
told command st = report true (record st { commands = st.commands ++ (command ∷ []) })

abbrev forward_to : Bytes → ℕ → Bytes
forward_to local port = codes "forward:" ++ (local ++ (codes ";tcp:" ++ itoa port))

abbrev with_mapping : Bytes → Bytes → ℕ → State → State
with_mapping key remote h st = record st {
  mappings = insert key (record { local = key; remote = remote; listener = h }) st.mappings;
}

abbrev pub mapping : Bytes → Bytes → ℕ → Mapping
mapping local remote h = record { local = local; remote = remote; listener = h }
