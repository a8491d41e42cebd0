-- ===== src/Reverse/Handling.antt =====
-- What a reverse command that overlaps with no other does to mappings and listeners.
use adb_tcp_bridge.Common.{
  ℕ, ◌≡◌, refl, ap, ◌∙◌, inl, inr, ◌≢◌, Bool, ◌&&◌, none, [], ◌∷◌, ◌++◌, arith, Bytes, codes,
  bytes_eq, bytes_eq_iff, bytes_eq_refl, Result, ok, err, if◌then◌else◌, if_elim, Option-cases,
  Result-cases, cut_prefix,
}
use adb_tcp_bridge.Strconv.{itoa}
use adb_tcp_bridge.Host.{has_status, status_okay}
use adb_tcp_bridge.Reverse.{
  Device, State, lookup, insert, shut, run_device_reverse, tear_down, evict, killed, kill,
}
use adb_tcp_bridge.Reverse.Forward.{
  resolved_local, take_norebind, parse_forward, is_mapped, record_mapping, device_answered,
  forward_bound, bind, forward_parsed, forward, handle_prefixed, handle,
}
use adb_tcp_bridge.Reverse.Listeners.{
  count, handles, count-close_listener, lookup-delete, delete_absent,
}
use adb_tcp_bridge.Reverse.Tidy.{
  IsTidy, Same, Same-IsTidy, run_device_reverse-Same, tear_down-IsTidy, evict-IsTidy,
}

shut-IsTidy : (h : ℕ) (st : State) → IsTidy (h ∷ []) st → IsTidy [] (shut h st)
unfolding count
shut-IsTidy h st t = record {
  owned = λ x. ground (arith, count-close_listener x h st.listeners, t.owned x, t.single x);
  single = λ x. omega (arith, t.single x);
  fresh = λ x p. omega (arith, t.fresh x p);
  keyed = t.keyed;
}

bind-IsTidy : (st : State) → IsTidy [] st → IsTidy (st.next_listener ∷ []) (bind st)
unfolding count
bind-IsTidy st t = record {
  owned = λ x. omega (arith, t.owned x);
  single = λ x. ground (arith, t.single x, t.fresh x);
  fresh = λ x p. ground (arith, t.fresh x);
  keyed = t.keyed;
}

insert-IsTidy :
    (h : ℕ) (key remote : Bytes) (st : State)
    → lookup key st.mappings ≡ none
    → IsTidy (h ∷ []) st
    → IsTidy [] (record st {
      mappings = insert key (record { local = key; remote = remote; listener = h }) st.mappings;
    })
unfolding insert count handles
insert-IsTidy h key remote st e t =
    let d = delete_absent key st.mappings e in
    record {
      owned = λ x. rw d (omega (arith, t.owned x));
      single = λ x. rw d (omega (arith, t.single x));
      fresh = λ x p. rw d (omega (arith, t.fresh x p));
      keyed = rw d (refl, e, t.keyed);
    }

module _ (dev : Device) where
  -- After an eviction the key is free, and other keys are as before.
  lookup-evict :
      (key j : Bytes) (st : State)
      → lookup j (evict dev key st).mappings
        ≡ (if bytes_eq key j then none else lookup j st.mappings)
  unfolding evict tear_down
  lookup-evict key j st = elim (Option-cases (lookup key st.mappings)) [
    | inl e ↦ rw (e, evict) (ground (arith, bytes_eq_iff key j))
    | inr (m, e) ↦
        rw (e, evict)
          (ap (lookup j) (run_device_reverse-Same dev _ _).same_mappings
            ∙ lookup-delete j key st.mappings)
  ]

  evict-free : (key : Bytes) (st : State) → lookup key (evict dev key st).mappings ≡ none
  evict-free key st = ground (arith, lookup-evict key key st, bytes_eq_refl key)

  record_mapping-IsTidy :
      (local remote : Bytes) (h : ℕ) (reply : Bytes) (st : State)
      → lookup local st.mappings ≡ none
      → IsTidy (h ∷ []) st
      → IsTidy [] (record_mapping dev local remote h reply st)
  unfolding record_mapping
  record_mapping-IsTidy local remote h reply st e t =
      insert-IsTidy h (resolved_local local reply) remote _ free tidy
    where
      key : Bytes
      key = resolved_local local reply

      free : lookup key (if bytes_eq key local then st else evict dev key st).mappings ≡ none
      free =
          if_elim (λ (s : State). lookup key s.mappings ≡ none) (bytes_eq key local)
            (λ same. rw ((bytes_eq_iff key local).0 same) e) (λ _. evict-free key st)

      tidy : IsTidy (h ∷ []) (if bytes_eq key local then st else evict dev key st)
      tidy =
          if_elim (IsTidy (h ∷ [])) (bytes_eq key local) (λ _. t)
            (λ _. evict-IsTidy dev (h ∷ []) key st t)

  device_answered-IsTidy :
      (local remote : Bytes) (h : ℕ) (r : State × Result Bytes Bytes)
      → lookup local r.0.mappings ≡ none
      → IsTidy (h ∷ []) r.0
      → IsTidy [] (device_answered dev local remote h r).0
  unfolding device_answered
  device_answered-IsTidy local remote h (st, err x) e t = shut-IsTidy h st t
  device_answered-IsTidy local remote h (st, ok reply) e t =
      if_elim (λ (r : State × Bytes). IsTidy [] r.0) (has_status reply status_okay)
        (λ _. record_mapping-IsTidy local remote h reply st e t) (λ _. shut-IsTidy h st t)

  forward_bound-IsTidy :
      (norebind : Bool) (local remote : Bytes) (h port : ℕ) (st : State)
      → IsTidy (h ∷ []) st
      → IsTidy [] (forward_bound dev norebind local remote h port st).0
  unfolding forward_bound
  forward_bound-IsTidy norebind local remote h port st t =
      if_elim (λ (r : State × Bytes). IsTidy [] r.0) (is_mapped local st && norebind)
        (λ _. shut-IsTidy h st t)
        (λ _.
          device_answered-IsTidy local remote h _
            (ap (lookup local) asked.same_mappings ∙ evict-free local st)
            (Same-IsTidy _ _ _ asked (evict-IsTidy dev (h ∷ []) local st t)))
    where
      asked :
          Same
            (evict dev local st)
            (run_device_reverse dev
              (codes "forward:" ++ (local ++ (codes ";tcp:" ++ itoa port)))
              (evict dev local st)).0
      asked = run_device_reverse-Same dev _ _

  forward_parsed-IsTidy :
      (norebind : Bool) (local remote : Bytes) (st : State)
      → IsTidy [] st
      → IsTidy [] (forward_parsed dev norebind local remote st).0
  forward_parsed-IsTidy norebind local remote st t =
      unfold forward_parsed in
      elim (Result-cases (dev.listen st.next_listener)) [
        | inr (e, r) ↦ rw (r, forward_parsed) t
        | inl (port, r) ↦
            rw (r, forward_parsed)
              (forward_bound-IsTidy norebind local remote st.next_listener port (bind st)
                (bind-IsTidy st t))
      ]

  forward-IsTidy : (spec : Bytes) (st : State) → IsTidy [] st → IsTidy [] (forward dev spec st).0
  unfolding forward
  forward-IsTidy spec st t = elim (Option-cases (parse_forward (take_norebind spec).1)) [
    | inl e ↦ rw (e, forward) t
    | inr ((local, remote), e) ↦
        rw (e, forward) (forward_parsed-IsTidy (take_norebind spec).0 local remote st t)
  ]

  killed-IsTidy : (r : State × Result Bytes Bytes) → IsTidy [] r.0 → IsTidy [] (killed r).0
  unfolding killed
  killed-IsTidy (st, err e) t = t
  killed-IsTidy (st, ok r) t = t

  kill-IsTidy : (local : Bytes) (st : State) → IsTidy [] st → IsTidy [] (kill dev local st).0
  unfolding kill
  kill-IsTidy local st t =
      if_elim (λ (r : State × Bytes). IsTidy [] r.0) (bytes_eq local []) (λ _. t)
        (λ _. elim (Option-cases (lookup local st.mappings)) [
          | inl e ↦ rw e t
          | inr (m, e) ↦ rw e (killed-IsTidy _ (tear_down-IsTidy dev [] local local m st e t))
        ])

  handle_prefixed-IsTidy :
      (command : Bytes) (st : State) → IsTidy [] st → IsTidy [] (handle_prefixed dev command st).0
  unfolding handle_prefixed
  handle_prefixed-IsTidy command st t =
      elim (Option-cases (cut_prefix (codes "killforward:") command)) [
        | inr (local, e) ↦ rw (e, handle_prefixed) (kill-IsTidy local st t)
        | inl e ↦ elim (Option-cases (cut_prefix (codes "forward:") command)) [
          | inr (spec, f) ↦ rw (e, handle_prefixed) (rw f (forward-IsTidy spec st t))
          | inl f ↦ rw (e, handle_prefixed) (rw f t)
        ]
      ]

  -- Every reverse command but killforward-all that overlaps with no other command, from its first step
  -- to its answer, keeps the open listeners those of the mappings, one each, with distinct keys, if
  -- they are that before, whatever the device and the network answer.
  pub handle-IsTidy :
      (command : Bytes) (st : State)
      → command ≢ codes "killforward-all"
      → IsTidy [] st
      → IsTidy [] (handle dev command st).0
  unfolding handle
  handle-IsTidy command st ne t =
      if_elim (λ (r : State × Bytes). IsTidy [] r.0) (bytes_eq command (codes "list-forward"))
        (λ _. t)
        (λ _.
          if_elim (λ (r : State × Bytes). IsTidy [] r.0)
            (bytes_eq command (codes "killforward-all"))
            (λ e. absurd (ne ((bytes_eq_iff command (codes "killforward-all")).0 e)))
            (λ _. handle_prefixed-IsTidy command st t))
