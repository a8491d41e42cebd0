-- ===== src/Reverse/Tidy.antt =====
-- The open listeners of a session's reverse forwards are those of its mappings, and of a forward
-- that is being set up.
use adb_tcp_bridge.Common.{
  ℕ, ◌+◌, ◌≤◌, ◌≡◌, inl, inr, not, some, List, [], ◌∷◌, ◌++◌, arith, Bytes, codes, Result, if_elim,
  Option-cases, length,
}
use adb_tcp_bridge.Reverse.{
  Mapping, Reply, no_service, broken, response, Device, State, lookup, delete, read_reply,
  run_device_reverse, tear_down, evict,
}
use adb_tcp_bridge.Reverse.Listeners.{
  count, handles, Keyed, count-close_listener, delete-Keyed, count-delete,
}

-- `extra` holds the listeners that no mapping has yet.
pub record IsTidy (extra : List ℕ) (st : State) : Type 0 where
  pub owned : (h : ℕ) → count h st.listeners ≡ count h extra + count h (handles st.mappings)
  pub single : (h : ℕ) → count h extra + count h (handles st.mappings) ≤ 1
  pub fresh : (h : ℕ) → st.next_listener ≤ h → count h extra + count h (handles st.mappings) ≡ 0
  pub keyed : Keyed st.mappings

-- Talking to the device changes no mapping and no listener.
pub record Same (st st' : State) : Type 0 where
  pub same_mappings : st'.mappings ≡ st.mappings
  pub same_listeners : st'.listeners ≡ st.listeners
  pub same_next : st'.next_listener ≡ st.next_listener

pub Same-IsTidy :
    (extra : List ℕ) (st st' : State) → Same st st' → IsTidy extra st → IsTidy extra st'
Same-IsTidy extra st st' e t = record {
  owned = λ h. rw (e.same_mappings, e.same_listeners) (t.owned h);
  single = λ h. rw e.same_mappings (t.single h);
  fresh = λ h p. rw e.same_mappings (t.fresh h (rw e.same_next at p));
  keyed = rw e.same_mappings t.keyed;
}

read_reply-Same : (st : State) (r : Reply) → Same st (read_reply st r).0
unfolding read_reply
read_reply-Same st (no_service e) = ground arith
read_reply-Same st (broken e) = ground arith
read_reply-Same st (response r) = ground arith

module _ (dev : Device) where
  pub run_device_reverse-Same :
      (command : Bytes) (st : State) → Same st (run_device_reverse dev command st).0
  unfolding run_device_reverse
  run_device_reverse-Same command st =
      if_elim (λ (r : State × Result Bytes Bytes). Same st r.0) (not dev.has_backend)
        (λ _. ground arith)
        (λ _. ground (
          arith,
          read_reply-Same (record st { commands = st.commands ++ (command ∷ []) })
              (dev.respond (length st.commands) (codes "reverse:" ++ command)),
        ))

  -- Closing the listener of a mapping that has just been deleted.
  pub tear_down-IsTidy :
      (extra : List ℕ) (key local : Bytes) (m : Mapping) (st : State)
      → lookup key st.mappings ≡ some m
      → IsTidy extra st
      → IsTidy extra (tear_down dev local m (record st { mappings = delete key st.mappings })).0
  unfolding tear_down
  tear_down-IsTidy extra key local m st e t =
      Same-IsTidy extra _ _ (run_device_reverse-Same _ _) (record {
        owned = λ h. ground (
          arith,
          count-close_listener h m.listener st.listeners,
          t.owned h,
          t.single h,
          count-delete h key st.mappings m t.keyed e,
        );
        single = λ h. ground (arith, t.single h, count-delete h key st.mappings m t.keyed e);
        fresh = λ h p. ground (arith, t.fresh h p, count-delete h key st.mappings m t.keyed e);
        keyed = delete-Keyed key st.mappings t.keyed;
      })

  pub evict-IsTidy :
      (extra : List ℕ) (key : Bytes) (st : State)
      → IsTidy extra st
      → IsTidy extra (evict dev key st)
  unfolding evict
  evict-IsTidy extra key st t = elim (Option-cases (lookup key st.mappings)) [
    | inl e ↦ rw (e, evict) t
    | inr (m, e) ↦ rw (e, evict) (tear_down-IsTidy extra key m.local m st e t)
  ]
