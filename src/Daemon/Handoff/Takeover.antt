-- ===== src/Daemon/Handoff/Takeover.antt =====
-- The loop of RestoreInherited adopts every bridge, with its record.
use adb_tcp_bridge.Common.{
  ℕ, zero, suc, ◌≡◌, refl, sym, ap, subst, ◌∙◌, inl, inr, true, false, Option, none, some, List, [],
  ◌∷◌, map, arith, Bytes, bytes_eq, bytes_eq_iff, bytes_eq_refl, ok, if◌then◌else◌, length,
  Bool-cases,
}
use adb_tcp_bridge.Daemon.Manager.{
  BridgeInfo, BridgeRestore, Item, Manager, lookup, insert, runs, StartConfig, make_item,
  start_prepared, start,
}
use adb_tcp_bridge.Daemon.Manager.Bridges.{Keyed, lookup-delete}
use adb_tcp_bridge.Daemon.Manager.Restart.{starts_free}
use adb_tcp_bridge.Daemon.Handler.{Settings}
use adb_tcp_bridge.Daemon.Preparing.{Machine, knows_backend, prepare, adopt_config, adopt}
use adb_tcp_bridge.Daemon.Preparing.Adopted.{adopt_prepared_lem}
use adb_tcp_bridge.Daemon.Handoff.{fds_from, Error, Inherited, adopted, adopt_all}

-- The bridge was made by Start, for its serial and a backend that NewDeviceBackend knows.
pub record Made (k : Bytes) (i : Item) : Type 0 where
  pub machine : Machine
  pub settings : Settings
  pub config : StartConfig
  pub listener : ℕ
  pub prepared : prepare machine settings ≡ ok (config, listener, i.restore)
  pub known : knows_backend settings.backend_name ≡ true
  pub own_serial : i.restore.serial ≡ k

abbrev pub AllMade : List (Bytes × Item) → Type 0
AllMade [] = Unit {0}
AllMade ((k, i) ∷ is) = Made k i × AllMade is

abbrev pub record_of : Option Item → Option BridgeRestore
record_of none = none
record_of (some i) = some i.restore

-- The record that a manager keeps for a serial.
abbrev pub recorded : Bytes → List (Bytes × Item) → Option BridgeRestore
recorded serial is = record_of (lookup serial is)

lookup-insert_if :
    (j k : Bytes) (i : Item) (is : List (Bytes × Item))
    → lookup j (insert k i is) ≡ (if bytes_eq k j then some i else lookup j is)
unfolding lookup
lookup-insert_if j k i is = ground (arith, lookup-delete j k is)

-- One round: the bridge is adopted, with its record.
adopt-Made :
    (machine : Machine) (k : Bytes) (i : Item) (l : ℕ) (m : Manager)
    → Made k i
    → lookup k m.items ≡ none
    → (i' : Item) × (info : BridgeInfo) × (i'.restore ≡ i.restore)
      × (adopt machine i.restore l m ≡ (
        record m {
          reaper_started = true;
          next_item = suc m.next_item;
          items = insert k i' m.items;
        },
        ok info,
      ))
adopt-Made machine k i l m d free =
    let (p, serial) =
      adopt_prepared_lem d.machine machine d.settings d.config d.listener l i.restore d.prepared
        d.known in
    let cfg = adopt_config machine i.restore l in
    let i' = make_item cfg l i.restore m.next_item in
    let here : lookup i.restore.serial m.items ≡ none =
      subst (λ j. lookup j m.items ≡ none) (sym d.own_serial) free in
    let idle : runs i.restore.serial m ≡ false = unfold runs in rw (here, runs) refl in
    (
      i',
      i'.info,
      unfold make_item in refl,
      unfold start start_prepared in
          rw (serial, start, idle, p)
            (starts_free cfg l i.restore (record m { reaper_started = true }) here
              ∙ ap
                  (λ j. (
                    record m {
                      reaper_started = true;
                      next_item = suc m.next_item;
                      items = insert j i' m.items;
                    },
                    ok i'.info,
                  ))
                  d.own_serial),
    )

-- No serial of the bridges that are left is in the new manager yet.
abbrev pub Apart : List (Bytes × Item) → List (Bytes × Item) → Type 0
Apart is js = (j : Bytes) (i : Item) → lookup j is ≡ some i → lookup j js ≡ none

abbrev pub over : Option BridgeRestore → Option BridgeRestore → Option BridgeRestore
over none r = r
over (some r') r = some r'

-- Descriptors from one on give listeners.
abbrev pub Inherits : Inherited → ℕ → ℕ → Type 0
Inherits inherited fd zero = Unit {0}
Inherits inherited fd (suc k) = ((l : ℕ) × (inherited fd ≡ ok l)) × Inherits inherited (suc fd) k

Apart-insert :
    (k : Bytes) (i i' : Item) (is js : List (Bytes × Item))
    → lookup k is ≡ none
    → Apart ((k, i) ∷ is) js
    → Apart is (insert k i' js)
unfolding lookup
Apart-insert k i i' is js e a j x f =
    let other : bytes_eq k j ≡ false = ground (arith, bytes_eq_iff k j) in
    lookup-insert_if j k i' js ∙ rw other (a j x (rw other f))

Apart-free :
    (k : Bytes) (i : Item) (is js : List (Bytes × Item))
    → Apart ((k, i) ∷ is) js
    → lookup k js ≡ none
unfolding lookup
Apart-free k i is js a = a k i (rw (bytes_eq_refl k) refl)

recorded-insert :
    (j k : Bytes) (i i' : Item) (is js : List (Bytes × Item))
    → lookup k is ≡ none
    → i'.restore ≡ i.restore
    → over (recorded j is) (recorded j (insert k i' js))
      ≡ over (recorded j ((k, i) ∷ is)) (recorded j js)
recorded-insert j k i i' is js e r =
    let new = lookup-insert_if j k i' js in
    unfold lookup in
    elim (Bool-cases (bytes_eq k j)) [
      | inl h ↦
          let same : k ≡ j = (bytes_eq_iff k j).0 h in
          let found : lookup j (insert k i' js) ≡ some i' = new ∙ rw h refl in
          ap (λ x. over (recorded j is) (record_of x)) found
          ∙ ap (λ x. over (record_of x) (some i'.restore)) (subst (λ q. lookup q is ≡ none) same e)
          ∙ ap some r
          ∙ rw h refl
      | inr h ↦
          let found : lookup j (insert k i' js) ≡ lookup j js = new ∙ rw h refl in
          ap (λ x. over (recorded j is) (record_of x)) found ∙ rw h refl
    ]

-- What adopting the bridges leaves: no error, and their records beside those that were there.
pub record TakesAll (is js : List (Bytes × Item)) (r : Manager × Option Error) : Type 0 where
  pub no_error : r.1 ≡ none
  pub records : (j : Bytes) → recorded j r.0.items ≡ over (recorded j is) (recorded j js)

pub adopt_all-Made :
    (machine : Machine) (inherited : Inherited) (n fd : ℕ) (is : List (Bytes × Item)) (m : Manager)
    → AllMade is
    → Keyed n is
    → Apart is m.items
    → Inherits inherited fd (length is)
    → TakesAll is m.items
        (adopt_all machine inherited (fds_from fd (length is)) (map (λ kv. kv.1.restore) is) m)
unfolding adopt_all
adopt_all-Made machine inherited n fd [] m d v a h = record {
  no_error = refl;
  records = λ j. unfold lookup in refl;
}
adopt_all-Made machine inherited n fd ((k, i) ∷ is) m (d, ds) v a ((l, e), hs) =
    let (i', info, same, step) = adopt-Made machine k i l m d (Apart-free k i is m.items a) in
    let m' : Manager = record m {
      reaper_started = true;
      next_item = suc m.next_item;
      items = insert k i' m.items;
    } in
    let rest =
      adopt_all-Made machine inherited n (suc fd) is m' ds v.4
        (Apart-insert k i i' is m.items v.3 a) hs in
    let now : adopt_all machine inherited (fds_from fd (length ((k, i) ∷ is)))
          (map (λ (kv : Bytes × Item). kv.1.restore) ((k, i) ∷ is)) m
        ≡ adopt_all machine inherited (fds_from (suc fd) (length is))
            (map (λ (kv : Bytes × Item). kv.1.restore) is) m' =
      rw (e, adopt_all)
        (ap
          (λ r. adopted l r (λ x.
            adopt_all machine inherited (fds_from (suc fd) (length is))
              (map (λ (kv : Bytes × Item). kv.1.restore) is) x))
          step) in
    subst (TakesAll ((k, i) ∷ is) m.items) (sym now) (record {
      no_error = rest.no_error;
      records = λ j. rest.records j ∙ recorded-insert j k i i' is m.items v.3 same;
    })
