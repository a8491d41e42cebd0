-- ===== src/Daemon/Manager/Failures.antt =====
-- onBackendResult and reapExpired: a bridge whose backend keeps failing is removed after a while.
use adb_tcp_bridge.Common.{
  ℕ, ◌+◌, ◌≡◌, refl, sym, ap, ◌∙◌, Bool, true, false, none, some, List, [], ◌∷◌, arith, Bytes,
  bytes_eq_iff, leb, if◌then◌else◌,
}
use adb_tcp_bridge.Daemon.Manager.{
  Item, Manager, lookup, update, on_backend_result, failure_after, is_expired, keep_live,
  reap_expired,
}
use adb_tcp_bridge.Daemon.Manager.Bridges.{
  IsValid, Keyed, keep_live-none, result, step, step-IsValid,
}

-- The bridge of the serial after failures at these times.
unfoldable pub fail_at : Bytes → List ℕ → Manager → Manager
fail_at serial [] m = m
fail_at serial (t ∷ ts) m = fail_at serial ts (on_backend_result serial false t m)

pub lookup-update :
    (serial : Bytes) (fine : Bool) (now : ℕ) (is : List (Bytes × Item)) (i : Item)
    → lookup serial is ≡ some i
    → lookup serial (update serial fine now is)
      ≡ some (record i { last_failed_at = failure_after fine now i.last_failed_at })
unfolding lookup update
lookup-update serial fine now [] i e = cc
lookup-update serial fine now ((j, x) ∷ is) i e = ground (arith, lookup-update serial fine now is i)

-- A later failure does not move the time of the first one.
fail_at_lem :
    (serial : Bytes) (t : ℕ) (ts : List ℕ) (m : Manager) (i : Item)
    → lookup serial m.items ≡ some i
    → i.last_failed_at ≡ some t
    → lookup serial (fail_at serial ts m).items ≡ some i
unfolding fail_at on_backend_result failure_after
fail_at_lem serial t [] m i e f = e
fail_at_lem serial t (u ∷ ts) m i e f =
    let h : failure_after false u i.last_failed_at ≡ i.last_failed_at =
      ap (failure_after false u) f ∙ sym f in
    fail_at_lem serial t ts (on_backend_result serial false u m) i
      (lookup-update serial false u m.items i e
        ∙ ap (λ x. some (record i { last_failed_at = x })) h)
      f

pub lookup-keep_live :
    (n now after : ℕ) (k : Bytes) (is : List (Bytes × Item)) (i : Item)
    → Keyed n is
    → lookup k is ≡ some i
    → lookup k (keep_live now after is) ≡ (if is_expired now after i then none else some i)
unfolding lookup keep_live
lookup-keep_live n now after k [] i v e = cc
lookup-keep_live n now after k ((j, x) ∷ is) i v e = ground (
  arith,
  lookup-keep_live n now after k is i v.4,
  bytes_eq_iff j k,
  keep_live-none now after k is,
)

fail_at-IsValid :
    (serial : Bytes) (ts : List ℕ) (m : Manager) → IsValid m → IsValid (fail_at serial ts m)
unfolding fail_at step
fail_at-IsValid serial [] m v = v
fail_at-IsValid serial (t ∷ ts) m v =
    fail_at-IsValid serial ts (step (result serial false t) m)
      (step-IsValid (result serial false t) m v)

fail_at-clean_after_failure :
    (serial : Bytes) (ts : List ℕ) (m : Manager)
    → (fail_at serial ts m).clean_after_failure ≡ m.clean_after_failure
unfolding fail_at on_backend_result
fail_at-clean_after_failure serial [] m = refl
fail_at-clean_after_failure serial (t ∷ ts) m =
    fail_at-clean_after_failure serial ts (on_backend_result serial false t m)

-- The bridge after a success at `s` and failures at `t` and then at `ts`.
first_failure :
    (serial : Bytes) (s t : ℕ) (ts : List ℕ) (m : Manager) (i : Item)
    → lookup serial m.items ≡ some i
    → lookup serial (fail_at serial (t ∷ ts) (on_backend_result serial true s m)).items
      ≡ some (record i { last_failed_at = some t })
unfolding fail_at on_backend_result failure_after
first_failure serial s t ts m i e =
    fail_at_lem serial t ts _ (record i { last_failed_at = some t })
      (lookup-update serial false t (update serial true s m.items)
        (record i { last_failed_at = none }) (lookup-update serial true s m.items i e))
      refl

-- A bridge is removed for its failures exactly when its first failure after a success is at least
-- the manager's period old: after a success and then failures at `t` and at any later times, the
-- reaper at `now` removes the bridge if t plus the period is at most `now`, and leaves it as it was,
-- with `t` as its time of failure, otherwise.
pub reap_expired-first_failure :
    (serial : Bytes) (s t now : ℕ) (ts : List ℕ) (m : Manager) (i : Item)
    → IsValid m
    → lookup serial m.items ≡ some i
    → let m' = fail_at serial (t ∷ ts) (on_backend_result serial true s m) in
      lookup serial (reap_expired now m').items ≡ (
        if leb (t + m.clean_after_failure) now
        then none
        else some (record i { last_failed_at = some t }))
reap_expired-first_failure serial s t now ts m i v e =
    unfold reap_expired is_expired in
    let m0 : Manager = on_backend_result serial true s m in
    let m' : Manager = fail_at serial (t ∷ ts) m0 in
    let w : IsValid m' =
      fail_at-IsValid serial (t ∷ ts) m0 (unfold step in step-IsValid (result serial true s) m v) in
    let c : m'.clean_after_failure ≡ m.clean_after_failure =
      unfold on_backend_result in fail_at-clean_after_failure serial (t ∷ ts) m0 in
    lookup-keep_live m'.next_item now m'.clean_after_failure serial m'.items _ w
      (first_failure serial s t ts m i e)
    ∙ ap (λ c. if leb (t + c) now then none else some (record i { last_failed_at = some t })) c
