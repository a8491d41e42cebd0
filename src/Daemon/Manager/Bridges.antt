-- ===== src/Daemon/Manager/Bridges.antt =====
-- The bridges that the manager holds, over any sequence of its operations.
use adb_tcp_bridge.Common.{
  ℕ, suc, ◌≤◌, ◌<◌, ◌≡◌, refl, inl, inr, Bool, none, some, List, [], ◌∷◌, arith, Bytes, bytes_eq,
  bytes_eq_iff, bytes_eq_refl, Result, ok, err, ◌==◌, if◌then◌else◌, if_elim, Option-cases,
}
use adb_tcp_bridge.Daemon.Manager.{
  BridgeInfo, BridgeRestore, Item, Manager, Error, running, lookup, delete, insert, runs,
  StartConfig, make_item, start_item, Prepared, start_prepared, start, serve_exit, stop, stop_all,
  update, on_backend_result, keep_live, reap_expired,
}

-- Keys are distinct; each is its bridge's serial; bridges run, and their ids have been handed out.
abbrev pub Keyed : ℕ → List (Bytes × Item) → Type 0
Keyed n [] = Unit {0}
Keyed n ((k, i) ∷ is) =
    (i.info.serial ≡ k) × (i.info.state ≡ running) × (i.id < n) × (lookup k is ≡ none) × Keyed n is

abbrev pub IsValid : Manager → Type 0
IsValid m = Keyed m.next_item m.items

pub data Event : Type 0 where
  starts : Bytes → Prepared → Event
  -- startItem alone: another caller may have come in after the check of Start
  started : StartConfig → ℕ → BridgeRestore → Event
  exits : Bytes → ℕ → ℕ → Event
  stops : Bytes → Event
  stops_all : Event
  result : Bytes → Bool → ℕ → Event
  reaps : ℕ → Event

unfoldable pub step : Event → Manager → Manager
step (starts serial prepared) m = (start serial prepared m).0
step (started cfg listener restore) m = (start_item cfg listener restore m).0
step (exits serial id listener) m = serve_exit serial id listener m
step (stops serial) m = (stop serial m).0
step stops_all m = stop_all m
step (result serial fine now) m = on_backend_result serial fine now m
step (reaps now) m = reap_expired now m

pub lookup-delete :
    (j k : Bytes) (is : List (Bytes × Item))
    → lookup j (delete k is) ≡ (if bytes_eq k j then none else lookup j is)
unfolding lookup delete
lookup-delete j k [] = ground arith
lookup-delete j k ((i, x) ∷ is) =
    ground (arith, bytes_eq_iff k j, bytes_eq_iff i k, bytes_eq_iff i j, lookup-delete j k is)

Keyed-mono : (n m : ℕ) (is : List (Bytes × Item)) → n ≤ m → Keyed n is → Keyed m is
Keyed-mono n m [] h v = tt
Keyed-mono n m ((k, i) ∷ is) h v = (v.0, v.1, omega (arith, v.2), v.3, Keyed-mono n m is h v.4)

delete-Keyed : (n : ℕ) (k : Bytes) (is : List (Bytes × Item)) → Keyed n is → Keyed n (delete k is)
unfolding delete
delete-Keyed n k [] v = tt
delete-Keyed n k ((j, i) ∷ is) v = ground (arith, delete-Keyed n k is v.4, lookup-delete j k is)

insert-Keyed :
    (n : ℕ) (k : Bytes) (i : Item) (is : List (Bytes × Item))
    → i.info.serial ≡ k
    → i.info.state ≡ running
    → i.id < n
    → Keyed n is
    → Keyed n (insert k i is)
insert-Keyed n k i is a b c v =
    (a, b, c, ground (arith, lookup-delete k k is, bytes_eq_refl k), delete-Keyed n k is v)

lookup-update-none :
    (serial : Bytes) (fine : Bool) (now : ℕ) (k : Bytes) (is : List (Bytes × Item))
    → lookup k is ≡ none
    → lookup k (update serial fine now is) ≡ none
unfolding lookup update
lookup-update-none serial fine now k [] e = refl
lookup-update-none serial fine now k ((j, i) ∷ is) e =
    ground (arith, lookup-update-none serial fine now k is)

update-Keyed :
    (n : ℕ) (serial : Bytes) (fine : Bool) (now : ℕ) (is : List (Bytes × Item))
    → Keyed n is
    → Keyed n (update serial fine now is)
unfolding update
update-Keyed n serial fine now [] v = tt
update-Keyed n serial fine now ((j, i) ∷ is) v =
    ground
      (arith, update-Keyed n serial fine now is v.4, lookup-update-none serial fine now j is v.3)

pub keep_live-none :
    (now after : ℕ) (k : Bytes) (is : List (Bytes × Item))
    → lookup k is ≡ none
    → lookup k (keep_live now after is) ≡ none
unfolding lookup keep_live
keep_live-none now after k [] e = refl
keep_live-none now after k ((j, i) ∷ is) e = ground (arith, keep_live-none now after k is)

keep_live-Keyed :
    (n now after : ℕ) (is : List (Bytes × Item)) → Keyed n is → Keyed n (keep_live now after is)
unfolding keep_live
keep_live-Keyed n now after [] v = tt
keep_live-Keyed n now after ((j, i) ∷ is) v =
    ground (arith, keep_live-Keyed n now after is v.4, keep_live-none now after j is v.3)

start_item-IsValid :
    (cfg : StartConfig) (listener : ℕ) (restore : BridgeRestore) (m : Manager)
    → IsValid m
    → IsValid (start_item cfg listener restore m).0
unfolding start_item make_item
start_item-IsValid cfg listener restore m v =
    let w : Keyed (suc m.next_item) m.items =
      Keyed-mono m.next_item (suc m.next_item) m.items (omega arith) v in
    if_elim (λ (r : Manager × Result Error BridgeInfo). IsValid r.0) (runs cfg.serial m) (λ _. w)
      (λ _.
        insert-Keyed (suc m.next_item) cfg.serial (make_item cfg listener restore m.next_item)
          m.items refl refl (omega arith) w)

start_prepared-IsValid : (p : Prepared) (m : Manager) → IsValid m → IsValid (start_prepared p m).0
unfolding start_prepared
start_prepared-IsValid (err e) m v = v
start_prepared-IsValid (ok (cfg, listener, restore)) m v =
    start_item-IsValid cfg listener restore m v

serve_exit-IsValid :
    (serial : Bytes) (id listener : ℕ) (m : Manager)
    → IsValid m
    → IsValid (serve_exit serial id listener m)
serve_exit-IsValid serial id listener m v =
    unfold serve_exit in
    elim (Option-cases (lookup serial m.items)) [
      | inl e ↦ rw (e, serve_exit) v
      | inr (i, e) ↦
          rw (e, serve_exit)
            (if_elim IsValid (i.id == id) (λ _. delete-Keyed m.next_item serial m.items v) (λ _. v))
    ]

stop-IsValid : (serial : Bytes) (m : Manager) → IsValid m → IsValid (stop serial m).0
stop-IsValid serial m v =
    unfold stop in
    elim (Option-cases (lookup serial m.items)) [
      | inl e ↦ rw (e, stop) v
      | inr (i, e) ↦ rw (e, stop) (delete-Keyed m.next_item serial m.items v)
    ]

-- Every operation, in any order, keeps the manager's bridges valid: one bridge for a serial at most,
-- under its own serial, in state "running" and with an id that was handed out before.
pub step-IsValid : (e : Event) (m : Manager) → IsValid m → IsValid (step e m)
unfolding step start on_backend_result reap_expired stop_all
step-IsValid (starts serial prepared) m v =
    if_elim (λ (r : Manager × Result Error BridgeInfo). IsValid r.0) (bytes_eq serial []) (λ _. v)
      (λ _.
        if_elim (λ (r : Manager × Result Error BridgeInfo). IsValid r.0) (runs serial m) (λ _. v)
          (λ _. start_prepared-IsValid prepared _ v))
step-IsValid (started cfg listener restore) m v = start_item-IsValid cfg listener restore m v
step-IsValid (exits serial id listener) m v = serve_exit-IsValid serial id listener m v
step-IsValid (stops serial) m v = stop-IsValid serial m v
step-IsValid stops_all m v = tt
step-IsValid (result serial fine now) m v = update-Keyed m.next_item serial fine now m.items v
step-IsValid (reaps now) m v = keep_live-Keyed m.next_item now m.clean_after_failure m.items v

unfoldable pub run : List Event → Manager → Manager
run [] m = m
run (e ∷ es) m = run es (step e m)

pub run-IsValid : (es : List Event) (m : Manager) → IsValid m → IsValid (run es m)
unfolding run
run-IsValid [] m v = v
run-IsValid (e ∷ es) m v = run-IsValid es (step e m) (step-IsValid e m v)

pub lookup-id :
    (n : ℕ) (k : Bytes) (is : List (Bytes × Item)) (i : Item)
    → Keyed n is
    → lookup k is ≡ some i
    → (i.id < n) × (i.info.serial ≡ k) × (i.info.state ≡ running)
unfolding lookup
lookup-id n k [] i v e = cc
lookup-id n k ((j, x) ∷ is) i v e = ground (arith, bytes_eq_iff j k, lookup-id n k is i v.4)
