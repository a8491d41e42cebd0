-- ===== src/Reverse/Overlap/Sound.antt =====
-- The listeners of mappings, however reverse commands overlap.
use adb_tcp_bridge.Common.{
  ℕ, zero, suc, ◌+◌, ◌≤◌, ◌≡◌, refl, inl, inr, ◌&&◌, List, [], ◌∷◌, arith, Bytes, codes, bytes_eq,
  Result, ok, err, if_elim, Option-cases, Result-cases, cut_prefix,
}
use adb_tcp_bridge.Host.{has_status, status_okay}
use adb_tcp_bridge.Reverse.{Mapping, Device, State, new_state, lookup, killed, tear_down}
use adb_tcp_bridge.Reverse.Forward.{resolved_local, take_norebind, parse_forward, is_mapped, bind}
use adb_tcp_bridge.Reverse.Listeners.{count, handles, Keyed}
use adb_tcp_bridge.Reverse.Tidy.{run_device_reverse-Same}
use adb_tcp_bridge.Reverse.Overlap.{
  asks, records, Task, checks, evicts, tears, goes_on, kills, kills_all, answered, asked, take_out,
  killed_next, advance, begin_forward, begin_kill, begin, Event, comes, goes, advance_at, happen,
  overlap,
}
use adb_tcp_bridge.Reverse.Overlap.Owned.{
  owned_after, owned, doomed, IsSound, plus, fewer-IsSound, Same-IsSound, shut-IsSound,
  bind-IsSound, take_out-IsSound, tear_down-IsSound, insert-IsSound,
}

module _ (dev : Device) (live gone : ℕ → ℕ) where
  -- A state and a goroutine, beside others.
  abbrev Moved : State × Task → Type 0
  Moved (st, t) = IsSound (plus live (owned t)) (plus gone (doomed t)) st

  -- A goroutine that owns nothing and is to close nothing.
  idle-Moved : (st : State) → IsSound live gone st → IsSound (plus live []) (plus gone []) st
  unfolding count
  idle-Moved st v = fewer-IsSound live gone _ _ st (λ h. omega arith) (λ h. omega arith) v

  no_more :
      (xs : List ℕ) (st : State)
      → IsSound (plus live xs) (plus gone []) st
      → IsSound (plus live xs) gone st
  unfolding count
  no_more xs st v = fewer-IsSound _ _ _ _ st (λ h. omega arith) (λ h. omega arith) v

  take_out-Moved :
      (key : Bytes) (st : State) (xs : List ℕ) (f : Mapping → Task) (t : Task)
      → ((m : Mapping) → owned (f m) ≡ xs)
      → ((m : Mapping) → doomed (f m) ≡ m.listener ∷ [])
      → owned t ≡ xs
      → doomed t ≡ []
      → IsSound (plus live xs) gone st
      → Moved (take_out key st (lookup key st.mappings) f t)
  unfolding count
  take_out-Moved key st xs f t o d o' d' v = elim (Option-cases (lookup key st.mappings)) [
    | inl e ↦ rw (e, o', d') (fewer-IsSound _ _ _ _ st (λ h. omega arith) (λ h. omega arith) v)
    | inr (m, e) ↦ rw (e, o m, d m) (take_out-IsSound (plus live xs) gone st key m e v)
  ]

  asked-Moved :
      (local remote : Bytes) (h : ℕ) (r : State × Result Bytes Bytes)
      → IsSound (plus live (h ∷ [])) gone r.0
      → Moved (asked local remote h r)
  unfolding owned doomed count
  asked-Moved local remote h (st, err e) v = idle-Moved _ (shut-IsSound live gone st h v)
  asked-Moved local remote h (st, ok reply) v =
      let key = resolved_local local reply in
      let same : IsSound (plus live (h ∷ [])) (plus gone []) st =
        fewer-IsSound _ _ _ _ st (λ x. omega arith) (λ x. omega arith) v in
      if_elim Moved (has_status reply status_okay)
        (λ _. if_elim (λ t. Moved (st, t)) (bytes_eq key local) (λ _. same) (λ _. same))
        (λ _. idle-Moved _ (shut-IsSound live gone st h v))

  killed_next-Moved :
      (ms : List (Bytes × Mapping)) (r : State × Result Bytes Bytes)
      → IsSound live (plus gone (handles ms)) r.0
      → Moved (killed_next ms r)
  unfolding owned doomed count
  killed_next-Moved ms (st, err e) v =
      fewer-IsSound _ _ _ _ st (λ h. omega arith) (λ h. omega arith) v
  killed_next-Moved ms (st, ok r) v =
      fewer-IsSound _ _ _ _ st (λ h. omega arith) (λ h. omega arith) v

  killed_state : (r : State × Result Bytes Bytes) → (killed r).0 ≡ r.0
  unfolding killed
  killed_state (st, err e) = refl
  killed_state (st, ok r) = refl

  advance-Moved : (t : Task) (st : State) → Moved (st, t) → Moved (advance dev t st)
  unfolding advance owned doomed handles
  advance-Moved (checks norebind local remote h port) st v =
      if_elim Moved (is_mapped local st && norebind)
        (λ _. idle-Moved _ (shut-IsSound live gone st h (no_more (h ∷ []) st v))) (λ _. v)
  advance-Moved (evicts key a) st v =
      take_out-Moved key st (owned_after a) (λ m. tears m a) (goes_on a) (λ m. refl) (λ m. refl)
        refl refl (no_more (owned_after a) st v)
  advance-Moved (tears m a) st v =
      tear_down-IsSound (plus live (owned_after a)) gone st dev m.local m [] v
  advance-Moved (goes_on (asks local remote h port)) st v =
      asked-Moved local remote h _
        (Same-IsSound _ _ _ _ (run_device_reverse-Same dev _ st) (no_more (h ∷ []) st v))
  advance-Moved (goes_on (records key remote h reply)) st v =
      idle-Moved _ (insert-IsSound live gone st key remote h (no_more (h ∷ []) st v))
  advance-Moved (kills local m) st v =
      rw (killed_state (tear_down dev local m st))
        (tear_down-IsSound (plus live []) gone st dev local m [] v)
  advance-Moved (kills_all []) st v = v
  advance-Moved (kills_all ((k, m) ∷ ms)) st v = killed_next-Moved ms _ (
      tear_down-IsSound live gone st dev m.local m (handles ms)
        (unfold count in fewer-IsSound _ _ _ _ st (λ h. omega arith) (λ h. omega arith) v))
  advance-Moved (answered r) st v = v

  forward-Moved :
      (spec : Bytes) (st : State) → IsSound live gone st → Moved (begin_forward dev spec st)
  unfolding owned doomed count
  forward-Moved spec st v = elim (Option-cases (parse_forward (take_norebind spec).1)) [
    | inl e ↦ rw (e, begin_forward) (idle-Moved st v)
    | inr ((local, remote), e) ↦ elim (Result-cases (dev.listen st.next_listener)) [
      | inr (x, q) ↦ rw (e, begin_forward, q) (idle-Moved st v)
      | inl (port, q) ↦
          let w = bind-IsSound live gone st v in
          rw (e, begin_forward, q)
            (unfold count in
              fewer-IsSound _ _ _ _ (bind st) (λ h. omega arith) (λ h. omega arith) w)
    ]
  ]

  kill-Moved : (local : Bytes) (st : State) → IsSound live gone st → Moved (begin_kill dev local st)
  unfolding owned doomed
  kill-Moved local st v =
      if_elim Moved (bytes_eq local []) (λ _. idle-Moved st v)
        (λ _.
          take_out-Moved local st [] (λ m. kills local m) _ (λ m. refl) (λ m. refl) refl refl
            (unfold count in fewer-IsSound _ _ _ _ st (λ h. omega arith) (λ h. omega arith) v))

  begin-Moved : (command : Bytes) (st : State) → IsSound live gone st → Moved (begin dev command st)
  unfolding begin owned doomed
  begin-Moved command st v =
      if_elim Moved (bytes_eq command (codes "list-forward")) (λ _. idle-Moved st v)
        (λ _.
          if_elim Moved (bytes_eq command (codes "killforward-all")) (λ _. drained)
            (λ _. elim (Option-cases (cut_prefix (codes "killforward:") command)) [
              | inr (local, e) ↦ rw e (kill-Moved local st v)
              | inl e ↦ elim (Option-cases (cut_prefix (codes "forward:") command)) [
                | inr (spec, f) ↦ rw (e, f) (forward-Moved spec st v)
                | inl f ↦ rw (e, f) (idle-Moved st v)
              ]
            ]))
    where
      drained :
          IsSound (plus live []) (plus gone (handles st.mappings)) (record st { mappings = [] })
      drained =
          unfold count handles in
          record {
            single = λ h. omega (arith, v.single h);
            is_open = λ h. omega (arith, v.is_open h);
            fresh = λ h p. omega (arith, v.fresh h p);
            keyed = tt;
          }

-- What the goroutines own, and what they will close.
abbrev lives : List Task → ℕ → ℕ
lives [] h = 0
lives (t ∷ ts) h = count h (owned t) + lives ts h

abbrev dooms : List Task → ℕ → ℕ
dooms [] h = 0
dooms (t ∷ ts) h = count h (doomed t) + dooms ts h

module _ (dev : Device) where
  advance_at-Sound :
      (n : ℕ) (ts : List Task) (st : State) (live gone : ℕ → ℕ)
      → IsSound (λ h. live h + lives ts h) (λ h. gone h + dooms ts h) st
      → let r = advance_at dev n ts st in
        IsSound (λ h. live h + lives r.1 h) (λ h. gone h + dooms r.1 h) r.0
  unfolding advance_at
  advance_at-Sound n [] st live gone v = v
  advance_at-Sound zero (t ∷ ts) st live gone v =
      let w =
        advance-Moved dev (λ h. live h + lives ts h) (λ h. gone h + dooms ts h) t st
          (fewer-IsSound _ _ _ _ st (λ h. omega arith) (λ h. omega arith) v) in
      fewer-IsSound _ _ _ _ (advance dev t st).0 (λ h. omega arith) (λ h. omega arith) w
  advance_at-Sound (suc n) (t ∷ ts) st live gone v =
      let w =
        advance_at-Sound n ts st (λ h. live h + count h (owned t))
          (λ h. gone h + count h (doomed t))
          (fewer-IsSound _ _ _ _ st (λ h. omega arith) (λ h. omega arith) v) in
      fewer-IsSound _ _ _ _ (advance_at dev n ts st).0 (λ h. omega arith) (λ h. omega arith) w

  abbrev Fine : State × List Task → Type 0
  Fine (st, ts) = IsSound (lives ts) (dooms ts) st

  happen-Fine : (e : Event) (s : State × List Task) → Fine s → Fine (happen dev e s)
  unfolding happen
  happen-Fine (comes command) (st, ts) v =
      let w = begin-Moved dev (lives ts) (dooms ts) command st v in
      fewer-IsSound _ _ _ _ (begin dev command st).0 (λ h. omega arith) (λ h. omega arith) w
  happen-Fine (goes n) (st, ts) v =
      let w =
        advance_at-Sound n ts st (λ h. 0) (λ h. 0)
          (fewer-IsSound _ _ _ _ st (λ h. omega arith) (λ h. omega arith) v) in
      fewer-IsSound _ _ _ _ (advance_at dev n ts st).0 (λ h. omega arith) (λ h. omega arith) w

  overlap-Fine : (es : List Event) (s : State × List Task) → Fine s → Fine (overlap dev es s)
  unfolding overlap
  overlap-Fine [] s v = v
  overlap-Fine (e ∷ es) s v = overlap-Fine es (happen dev e s) (happen-Fine e s v)

  -- However the reverse commands of a session overlap, whatever the device and the network answer, and
  -- killforward-all among them: the mappings have distinct keys, no listener belongs to two of them,
  -- and the listener of every mapping is open.
  pub overlap-listeners :
      (es : List Event) (h : ℕ)
      → let st = (overlap dev es (new_state, [])).0 in
        Keyed st.mappings
        × (count h (handles st.mappings) ≤ 1)
        × (count h (handles st.mappings) ≤ count h st.listeners)
  overlap-listeners es h =
      let empty : Fine (new_state, []) =
        unfold new_state count handles in
        record {
          single = λ x. omega arith;
          is_open = λ x. omega arith;
          fresh = λ x p. refl;
          keyed = tt;
        } in
      let v = overlap-Fine es (new_state, []) empty in
      (v.keyed, omega (arith, v.single h), omega (arith, v.is_open h))
