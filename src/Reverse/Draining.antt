-- ===== src/Reverse/Draining.antt =====
-- killAll and closeAll: both take every mapping out of the map first, and differ in what they do
-- when the device cannot be reached.
use adb_tcp_bridge.Common.{
  ℕ, ◌≡◌, refl, ap, ◌∙◌, true, not, List, [], ◌∷◌, arith, Bytes, err, ◌==◌, if◌then◌else◌, if_elim,
  Result-cases, inl, inr,
}
use adb_tcp_bridge.Host.{status_okay}
use adb_tcp_bridge.Host.Frames.{fail_message-ne-okay}
use adb_tcp_bridge.Reverse.{
  Mapping, Device, State, shut, tear_down, kill_drained, kill_all, close_drained, close_all,
  reverse_fail,
}
use adb_tcp_bridge.Reverse.Listeners.{count, handles, count-close_listener}
use adb_tcp_bridge.Reverse.Tidy.{IsTidy, run_device_reverse-Same}

module _ (dev : Device) where
  tear_down-listeners :
      (h : ℕ) (local : Bytes) (m : Mapping) (st : State)
      → count h (tear_down dev local m st).0.listeners
        ≡ (if m.listener == h then 0 else count h st.listeners)
  unfolding tear_down
  tear_down-listeners h local m st =
      ap (count h) (run_device_reverse-Same dev _ (shut m.listener st)).same_listeners
      ∙ count-close_listener h m.listener st.listeners

  tear_down-mappings :
      (local : Bytes) (m : Mapping) (st : State)
      → (tear_down dev local m st).0.mappings ≡ st.mappings
  unfolding tear_down
  tear_down-mappings local m st = (run_device_reverse-Same dev _ (shut m.listener st)).same_mappings

  close_drained-listeners :
      (h : ℕ) (ms : List (Bytes × Mapping)) (st : State)
      → (count h (handles ms) ≡ 0 → count h st.listeners ≡ 0)
      → count h (close_drained dev ms st).listeners ≡ 0
  unfolding close_drained handles count
  close_drained-listeners h [] st c = c refl
  close_drained-listeners h ((k, m) ∷ ms) st c =
      close_drained-listeners h ms (tear_down dev m.local m st).0
        (λ e. ground (arith, tear_down-listeners h m.local m st, c))

  close_drained-mappings :
      (ms : List (Bytes × Mapping)) (st : State) → (close_drained dev ms st).mappings ≡ st.mappings
  unfolding close_drained
  close_drained-mappings [] st = refl
  close_drained-mappings ((k, m) ∷ ms) st =
      close_drained-mappings ms _ ∙ tear_down-mappings m.local m st

  kill_drained-listeners :
      (h : ℕ) (ms : List (Bytes × Mapping)) (st : State)
      → (count h (handles ms) ≡ 0 → count h st.listeners ≡ 0)
      → (kill_drained dev ms st).1 ≡ status_okay
      → count h (kill_drained dev ms st).0.listeners ≡ 0
  unfolding kill_drained handles count
  kill_drained-listeners h [] st c e = c refl
  kill_drained-listeners h ((k, m) ∷ ms) st c e =
      elim (Result-cases (tear_down dev m.local m st).1) [
        | inl (r, q) ↦
            rw (q, kill_drained)
              (kill_drained-listeners h ms (tear_down dev m.local m st).0
                (λ z. ground (arith, tear_down-listeners h m.local m st, c))
                (rw (q, kill_drained) at e))
        | inr (x, q) ↦ absurd (fail_message-ne-okay x (rw (q, kill_drained) at e))
      ]

  pub close_all-no_mappings : (st : State) → st.mappings ≡ [] → (close_all dev st).mappings ≡ []
  unfolding close_all
  close_all-no_mappings st e =
      if_elim (λ (r : State). r.mappings ≡ []) (not dev.has_backend) (λ _. e)
        (λ _. close_drained-mappings st.mappings (record st { mappings = [] }))

  kill_drained-mappings :
      (ms : List (Bytes × Mapping)) (st : State) → (kill_drained dev ms st).0.mappings ≡ st.mappings
  unfolding kill_drained
  kill_drained-mappings [] st = refl
  kill_drained-mappings ((k, m) ∷ ms) st = elim (Result-cases (tear_down dev m.local m st).1) [
    | inl (r, q) ↦
        rw (q, kill_drained)
          (kill_drained-mappings ms (tear_down dev m.local m st).0
            ∙ tear_down-mappings m.local m st)
    | inr (x, q) ↦ rw (q, kill_drained) (tear_down-mappings m.local m st)
  ]

  -- If the open listeners are exactly those of the mappings, one each, with distinct keys, then closeAll
  -- of a session with a backend leaves no mapping and no listener open, whatever the device answers.
  pub close_all-clears :
      (h : ℕ) (st : State)
      → dev.has_backend ≡ true
      → IsTidy [] st
      → ((close_all dev st).mappings ≡ []) × (count h (close_all dev st).listeners ≡ 0)
  unfolding close_all
  close_all-clears h st b t =
      if_elim (λ (r : State). (r.mappings ≡ []) × (count h r.listeners ≡ 0)) (not dev.has_backend)
        (λ e. cc)
        (λ _. (
          close_drained-mappings st.mappings (record st { mappings = [] }),
          close_drained-listeners h st.mappings (record st { mappings = [] })
              (λ z. unfold count in omega (arith, t.owned h)),
        ))

  -- Under the same condition, killforward-all that answers OKAY leaves no mapping and no listener open.
  pub kill_all_okay-clears :
      (h : ℕ) (st : State)
      → IsTidy [] st
      → (kill_all dev st).1 ≡ status_okay
      → ((kill_all dev st).0.mappings ≡ []) × (count h (kill_all dev st).0.listeners ≡ 0)
  unfolding kill_all
  kill_all_okay-clears h st t e = (
    kill_drained-mappings st.mappings _,
    kill_drained-listeners h st.mappings (record st { mappings = [] })
        (λ z. unfold count in omega (arith, t.owned h)) e,
  )

  kill_drained_fails :
      (k : Bytes) (m : Mapping) (ms : List (Bytes × Mapping)) (st : State) (e : Bytes)
      → (tear_down dev m.local m st).1 ≡ err e
      → kill_drained dev ((k, m) ∷ ms) st ≡ ((tear_down dev m.local m st).0, reverse_fail e)
  unfolding kill_drained
  kill_drained_fails k m ms st e f = rw (f, kill_drained)

  -- If the open listeners are exactly those of the mappings, one each, with distinct keys, and the
  -- device cannot be told to kill the first of them, then killforward-all answers with
  -- that failure and forgets every mapping, but closes only the first one's listener: the listeners
  -- of all the others stay open, and no mapping leads to them any more.
  pub kill_all_leaks :
      (h : ℕ) (st : State) (k : Bytes) (m : Mapping) (ms : List (Bytes × Mapping)) (e : Bytes)
      → IsTidy [] st
      → st.mappings ≡ (k, m) ∷ ms
      → (tear_down dev m.local m (record st { mappings = [] })).1 ≡ err e
      → ((kill_all dev st).1 ≡ reverse_fail e)
        × ((kill_all dev st).0.mappings ≡ [])
        × (count h (kill_all dev st).0.listeners ≡ count h (handles ms))
  unfolding kill_all
  kill_all_leaks h st k m ms e t q f = (
    ap (λ r. r.1) whole,
    ap (λ r. r.0.mappings) whole ∙ tear_down-mappings m.local m emptied,
    ap (λ r. count h r.0.listeners) whole ∙ tear_down-listeners h m.local m emptied ∙ others,
  )
    where
      emptied : State
      emptied = record st { mappings = [] }

      whole : kill_all dev st ≡ ((tear_down dev m.local m emptied).0, reverse_fail e)
      whole = ap (λ x. kill_drained dev x emptied) q ∙ kill_drained_fails k m ms emptied e f

      others : (if m.listener == h then 0 else count h st.listeners) ≡ count h (handles ms)
      others =
          unfold count handles in
          ground (arith, t.owned h, t.single h, ap (λ x. count h (handles x)) q)
