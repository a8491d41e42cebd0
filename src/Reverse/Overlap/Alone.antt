-- ===== src/Reverse/Overlap/Alone.antt =====
-- A command whose parts run one after another does what `handle` says.
use adb_tcp_bridge.Common.{
  ℕ, zero, suc, ◌+◌, ◌≤◌, ◌≡◌, ◌≢◌, refl, sym, subst, inl, inr, Bool, true, false, ◌&&◌, List, [],
  ◌∷◌, ◌++◌, arith, Bytes, codes, bytes_eq, Result, ok, err, length, Option-cases, Result-cases,
  if◌then◌else◌, cut_prefix,
}
use adb_tcp_bridge.Strconv.{itoa}
use adb_tcp_bridge.Host.{fail_message, has_status, status_okay}
use adb_tcp_bridge.Reverse.{
  Mapping, Device, State, lookup, delete, insert, killed, run_device_reverse, tear_down, evict,
  kill, kill_drained, kill_all,
}
use adb_tcp_bridge.Reverse.Forward.{
  resolved_local, take_norebind, parse_forward, is_mapped, bind, record_mapping, device_answered,
  forward_bound, forward_parsed, forward, handle_prefixed, handle,
}
use adb_tcp_bridge.Reverse.Tidy.{IsTidy}
use adb_tcp_bridge.Reverse.Handling.{handle-IsTidy}
use adb_tcp_bridge.Reverse.Overlap.{
  After, asks, records, Task, checks, evicts, tears, goes_on, kills, kills_all, answered, asked,
  advance, begin_forward, begin_kill, begin,
}

module _ (dev : Device) where
  -- The next parts of a goroutine that is alone.
  pub alone : ℕ → State × Task → State × Task
  alone zero s = s
  alone (suc k) (st, t) = alone k (advance dev t st)

  -- After so many parts and more it has come to this state and answer.
  Lands : ℕ → State × Task → State × Bytes → Type 0
  Lands n s r = (k : ℕ) → n ≤ k → alone k s ≡ (r.0, answered r.1)

  stays : (k : ℕ) (st : State) (r : Bytes) → alone k (st, answered r) ≡ (st, answered r)
  unfolding alone advance
  stays zero st r = refl
  stays (suc k) st r = stays k st r

  answered-Lands : (n : ℕ) (st : State) (r : Bytes) → Lands n (st, answered r) (st, r)
  unfolding Lands
  answered-Lands n st r k l = stays k st r

  later-Lands : (n m : ℕ) (s : State × Task) (r : State × Bytes) → n ≤ m → Lands n s r → Lands m s r
  unfolding Lands
  later-Lands n m s r o h k l = h k (omega (arith, o, l))

  step-Lands :
      (n : ℕ) (t : Task) (st : State) (r : State × Bytes)
      → Lands n (advance dev t st) r
      → Lands (suc n) (st, t) r
  unfolding Lands alone
  step-Lands n t st r h zero l = absurd (omega (arith, l))
  step-Lands n t st r h (suc k) l = h k (omega (arith, l))

  evicts-Lands :
      (n : ℕ) (key : Bytes) (a : After) (st : State) (r : State × Bytes)
      → Lands n (evict dev key st, goes_on a) r
      → Lands (n + 2) (st, evicts key a) r
  unfolding evict
  evicts-Lands n key a st r h = elim (Option-cases (lookup key st.mappings)) [
    | inl e ↦
        let now : advance dev (evicts key a) st ≡ (evict dev key st, goes_on a) =
          unfold advance in rw (e, evict) refl in
        later-Lands (suc n) (n + 2) (st, evicts key a) r (omega arith)
          (step-Lands n (evicts key a) st r (subst (λ x. Lands n x r) (sym now) h))
    | inr (m, e) ↦
        let st' : State = record st { mappings = delete key st.mappings } in
        let now : advance dev (evicts key a) st ≡ (st', tears m a) = unfold advance in rw e refl in
        let then_ : advance dev (tears m a) st' ≡ (evict dev key st, goes_on a) =
          unfold advance in rw (e, evict) refl in
        later-Lands (suc (suc n)) (n + 2) (st, evicts key a) r (omega arith)
          (step-Lands (suc n) (evicts key a) st r (
            subst (λ x. Lands (suc n) x r) (sym now)
              (step-Lands n (tears m a) st' r (subst (λ x. Lands n x r) (sym then_) h))))
  ]

  records-Lands :
      (key remote : Bytes) (h : ℕ) (reply : Bytes) (st : State)
      → Lands 1
          (st, goes_on (records key remote h reply))
          (
            record st {
              mappings =
                  insert key (record { local = key; remote = remote; listener = h }) st.mappings;
            },
            reply,
          )
  unfolding advance
  records-Lands key remote h reply st =
      step-Lands 0 (goes_on (records key remote h reply)) st _ (answered-Lands 0 _ reply)

  if_Lands :
      (n : ℕ) (c : Bool) (s s' : State × Task) (r r' : State × Bytes)
      → Lands n s r
      → Lands n s' r'
      → Lands n (if c then s else s') (if c then r else r')
  if_Lands n true s s' r r' x y = x
  if_Lands n false s s' r r' x y = y

  resolves-Lands :
      (c : Bool) (key remote : Bytes) (h : ℕ) (reply : Bytes) (st : State)
      → let t = records key remote h reply in
        let st' = if c then st else evict dev key st in
        Lands 3
          (st, if c then goes_on t else evicts key t)
          (
            record st' {
              mappings =
                  insert key (record { local = key; remote = remote; listener = h }) st'.mappings;
            },
            reply,
          )
  resolves-Lands true key remote h reply st =
      later-Lands 1 3 _ _ (omega arith) (records-Lands key remote h reply st)
  resolves-Lands false key remote h reply st =
      evicts-Lands 1 key (records key remote h reply) st _
        (records-Lands key remote h reply (evict dev key st))

  asked-Lands :
      (local remote : Bytes) (h : ℕ) (x : State × Result Bytes Bytes)
      → Lands 3 (asked local remote h x) (device_answered dev local remote h x)
  unfolding device_answered record_mapping
  asked-Lands local remote h (st, err e) = answered-Lands 3 _ _
  asked-Lands local remote h (st, ok reply) =
      let key = resolved_local local reply in
      if_Lands 3 (has_status reply status_okay) _ _ _ _
        (resolves-Lands (bytes_eq key local) key remote h reply st) (answered-Lands 3 _ reply)

  checks-Lands :
      (norebind : Bool) (local remote : Bytes) (h port : ℕ) (st : State)
      → Lands 7
          (st, checks norebind local remote h port)
          (forward_bound dev norebind local remote h port st)
  unfolding forward_bound advance
  checks-Lands norebind local remote h port st =
      let a = asks local remote h port in
      let x : State × Result Bytes Bytes =
        run_device_reverse dev (codes "forward:" ++ (local ++ (codes ";tcp:" ++ itoa port)))
          (evict dev local st) in
      step-Lands 6 (checks norebind local remote h port) st _ (
        if_Lands 6 (is_mapped local st && norebind) _ _ _ _ (answered-Lands 6 _ _) (
          evicts-Lands 4 local a st _ (
            step-Lands 3 (goes_on a) (evict dev local st) (device_answered dev local remote h x)
              (asked-Lands local remote h x))))

  forward-Lands :
      (spec : Bytes) (st : State) → Lands 7 (begin_forward dev spec st) (forward dev spec st)
  unfolding forward forward_parsed
  forward-Lands spec st = elim (Option-cases (parse_forward (take_norebind spec).1)) [
    | inl e ↦ rw (e, begin_forward, forward) (answered-Lands 7 st _)
    | inr ((local, remote), e) ↦ elim (Result-cases (dev.listen st.next_listener)) [
      | inr (x, q) ↦ rw (e, begin_forward, forward, q, forward_parsed) (answered-Lands 7 st _)
      | inl (port, q) ↦
          rw (e, begin_forward, forward, q, forward_parsed)
            (checks-Lands (take_norebind spec).0 local remote st.next_listener port (bind st))
    ]
  ]

  killed-Lands :
      (n : ℕ) (x : State × Result Bytes Bytes)
      → Lands n ((killed x).0, answered (killed x).1) (killed x)
  killed-Lands n x = answered-Lands n (killed x).0 (killed x).1

  kill-Lands : (local : Bytes) (st : State) → Lands 1 (begin_kill dev local st) (kill dev local st)
  unfolding kill advance
  kill-Lands local st =
      if_Lands 1 (bytes_eq local []) _ _ _ _ (answered-Lands 1 st _)
        (elim (Option-cases (lookup local st.mappings)) [
          | inl e ↦ rw e (answered-Lands 1 st _)
          | inr (m, e) ↦
              let st' : State = record st { mappings = delete local st.mappings } in
              rw e (step-Lands 0 (kills local m) st' _ (killed-Lands 0 (tear_down dev local m st')))
        ])

  kills_all-Lands :
      (ms : List (Bytes × Mapping)) (st : State)
      → Lands (suc (length ms)) (st, kills_all ms) (kill_drained dev ms st)
  unfolding kill_drained advance
  kills_all-Lands [] st = step-Lands 0 (kills_all []) st _ (answered-Lands 0 st status_okay)
  kills_all-Lands ((k, m) ∷ ms) st =
      let n = length ms in
      step-Lands (suc n) (kills_all ((k, m) ∷ ms)) st (kill_drained dev ((k, m) ∷ ms) st)
        (elim (Result-cases (tear_down dev m.local m st).1) [
          | inr (x, q) ↦ rw (q, kill_drained) (answered-Lands (suc n) _ _)
          | inl (y, q) ↦ rw (q, kill_drained) (kills_all-Lands ms (tear_down dev m.local m st).0)
        ])

  -- The parts of a goroutine that runs alone, with nothing between them, come to the state and the answer
  -- of `handle`, and stay there: seven parts after the first and one for each mapping are enough.
  alone-begin :
      (command : Bytes) (st : State) (k : ℕ)
      → 7 + length st.mappings ≤ k
      → let r = handle dev command st in alone k (begin dev command st) ≡ (r.0, answered r.1)
  unfolding handle handle_prefixed begin kill_all Lands fail_message
  alone-begin command st k l =
      let n = 7 + length st.mappings in
      let all : Lands n (begin dev command st) (handle dev command st) =
        if_Lands n (bytes_eq command (codes "list-forward")) _ _ _ _ (answered-Lands n st _) (
          if_Lands n (bytes_eq command (codes "killforward-all")) _ _ _ _
            (later-Lands (suc (length st.mappings)) n _ _ (omega arith)
              (kills_all-Lands st.mappings (record st { mappings = [] })))
            (elim (Option-cases (cut_prefix (codes "killforward:") command)) [
              | inr (local, e) ↦
                  rw (e, handle_prefixed) (later-Lands 1 n _ _ (omega arith) (kill-Lands local st))
              | inl e ↦ elim (Option-cases (cut_prefix (codes "forward:") command)) [
                | inr (spec, f) ↦
                    rw (e, f, handle_prefixed)
                      (later-Lands 7 n _ _ (omega arith) (forward-Lands spec st))
                | inl f ↦ rw (e, f, handle_prefixed) (answered-Lands n st _)
              ]
            ])) in
      all k l

  -- If a reverse command other than killforward-all runs alone, with no part of another between its own,
  -- then within seven parts after the first and one for each mapping it has come to the state and the
  -- answer of `handle`, and it stays there; and if before it the open listeners were exactly those of
  -- the mappings, one each, with distinct keys, they are so afterwards, whatever the device and the
  -- network answer.
  pub alone-IsTidy :
      (command : Bytes) (st : State) (k : ℕ)
      → command ≢ codes "killforward-all"
      → 7 + length st.mappings ≤ k
      → IsTidy [] st
      → let r = handle dev command st in
        let s = alone k (begin dev command st) in (s ≡ (r.0, answered r.1)) × IsTidy [] s.0
  alone-IsTidy command st k ne l t =
      let same = alone-begin command st k l in
      (
        same,
        subst (λ (x : State × Task). IsTidy [] x.0) (sym same) (handle-IsTidy dev command st ne t),
      )
