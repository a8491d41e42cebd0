-- ===== src/Daemon/Handoff/Kept.antt =====
-- The operations of the manager keep the records of its bridges.
use adb_tcp_bridge.Common.{
  ℕ, ◌≡◌, refl, subst, inl, inr, Bool, List, [], ◌∷◌, Bytes, bytes_eq, ok, if_elim, ◌==◌,
  Option-cases,
}
use adb_tcp_bridge.Daemon.Manager.{
  BridgeRestore, Item, Manager, lookup, delete, serve_exit, update, keep_live, is_expired,
}
use adb_tcp_bridge.Daemon.Preparing.{prepare}
use adb_tcp_bridge.Daemon.Handoff.Takeover.{Made, AllMade}

pub delete-AllMade : (k : Bytes) (is : List (Bytes × Item)) → AllMade is → AllMade (delete k is)
unfolding delete
delete-AllMade k [] d = tt
delete-AllMade k ((j, i) ∷ is) (d, ds) =
    if_elim AllMade (bytes_eq j k) (λ _. delete-AllMade k is ds) (λ _. (d, delete-AllMade k is ds))

pub keep_live-AllMade :
    (now after : ℕ) (is : List (Bytes × Item)) → AllMade is → AllMade (keep_live now after is)
unfolding keep_live
keep_live-AllMade now after [] d = tt
keep_live-AllMade now after ((j, i) ∷ is) (d, ds) =
    if_elim AllMade (is_expired now after i) (λ _. keep_live-AllMade now after is ds)
      (λ _. (d, keep_live-AllMade now after is ds))

-- A bridge with the same record.
Made-again : (k : Bytes) (i i' : Item) → i.restore ≡ i'.restore → Made k i → Made k i'
Made-again k i i' e d = record {
  machine = d.machine;
  settings = d.settings;
  config = d.config;
  listener = d.listener;
  prepared = subst (λ r. prepare d.machine d.settings ≡ ok (d.config, d.listener, r)) e d.prepared;
  known = d.known;
  own_serial = subst (λ (r : BridgeRestore). r.serial ≡ k) e d.own_serial;
}

pub update-AllMade :
    (serial : Bytes) (fine : Bool) (now : ℕ) (is : List (Bytes × Item))
    → AllMade is
    → AllMade (update serial fine now is)
unfolding update
update-AllMade serial fine now [] d = tt
update-AllMade serial fine now ((j, i) ∷ is) (d, ds) = (
  if_elim (λ (kv : Bytes × Item). Made kv.0 kv.1) (bytes_eq j serial) (λ _. Made-again j i _ refl d)
      (λ _. d),
  update-AllMade serial fine now is ds,
)

pub exit-AllMade :
    (serial : Bytes) (id l : ℕ) (m : Manager)
    → AllMade m.items
    → AllMade (serve_exit serial id l m).items
exit-AllMade serial id l m d =
    unfold serve_exit in
    elim (Option-cases (lookup serial m.items)) [
      | inl e ↦ rw (e, serve_exit) d
      | inr (i, e) ↦
          rw (e, serve_exit)
            (if_elim (λ (x : Manager). AllMade x.items) (i.id == id)
              (λ _. delete-AllMade serial m.items d) (λ _. d))
    ]
