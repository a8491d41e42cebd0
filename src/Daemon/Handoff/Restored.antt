-- ===== src/Daemon/Handoff/Restored.antt =====
-- The new daemon takes over every bridge of the old one.
use adb_tcp_bridge.Common.{
  ℕ, zero, suc, ◌+◌, ◌^◌, ◌<◌, ◌≡◌, refl, ap, ◌∙◌, true, Option, none, some, List, [], ◌∷◌, map,
  arith, Bytes, ok, ◌==◌, ==_refl, length,
}
use adb_tcp_bridge.Daemon.Manager.{BridgeRestore, Item, Manager, new_manager, lookup, snapshot}
use adb_tcp_bridge.Daemon.Manager.Bridges.{IsValid}
use adb_tcp_bridge.Daemon.Preparing.{Machine}
use adb_tcp_bridge.Daemon.Handoff.{
  first_fd, fds_from, fd_spec, parse_inherit_fds, Error, Inherited, adopt_all, without_last,
  take_control, restore_inherited,
}
use adb_tcp_bridge.Daemon.Handoff.Spec.{parse_inherit_fds-fd_spec}
use adb_tcp_bridge.Daemon.Handoff.Takeover.{AllMade, recorded, over, Inherits, adopt_all-Made}

without_last-fds_from : (fd k : ℕ) → without_last (fds_from fd (suc k)) ≡ fds_from fd k
without_last-fds_from fd zero = refl
without_last-fds_from fd (suc k) = ap (λ fds. fd ∷ fds) (without_last-fds_from (suc fd) k)

length-fds_from : (fd k : ℕ) → length (fds_from fd k) ≡ k
length-fds_from fd zero = refl
length-fds_from fd (suc k) = ap suc (length-fds_from (suc fd) k)

snapshot_size :
    (is : List (Bytes × Item))
    → length {A = BridgeRestore × ℕ} (map (λ (kv : Bytes × Item). (kv.1.restore, kv.1.listener)) is)
        + 2
      ≡ suc (suc (length is))
snapshot_size [] = refl
snapshot_size (kv ∷ is) = omega (arith, snapshot_size is)

snapshot_records :
    (is : List (Bytes × Item))
    → map
        (λ (item : BridgeRestore × ℕ). item.0)
        (map (λ (kv : Bytes × Item). (kv.1.restore, kv.1.listener)) is)
      ≡ map (λ (kv : Bytes × Item). kv.1.restore) is
snapshot_records [] = refl
snapshot_records (kv ∷ is) = ap (λ rs. kv.1.restore ∷ rs) (snapshot_records is)

length-records :
    (is : List (Bytes × Item)) → length (map (λ (kv : Bytes × Item). kv.1.restore) is) ≡ length is
length-records [] = refl
length-records (kv ∷ is) = ap suc (length-records is)

takes_control :
    (inherited : Inherited) (fd control : ℕ) (r : Manager × Option Error)
    → inherited fd ≡ ok control
    → r.1 ≡ none
    → take_control inherited fd r ≡ (r.0, ok control)
takes_control inherited fd control (m, none) c e = rw (c, take_control) refl
takes_control inherited fd control (m, some x) c e = cc

restore_inherited_lem :
    (machine : Machine) (inherited : Inherited) (is : List (Bytes × Item)) (control : ℕ)
    → let records = map (λ (kv : Bytes × Item). kv.1.restore) is in
      let r =
        adopt_all machine inherited (fds_from (suc first_fd) (length is)) records new_manager in
      inherited first_fd ≡ ok control
      → r.1 ≡ none
      → restore_inherited machine inherited
          (fds_from first_fd (suc (suc (length is))))
          records
          new_manager
        ≡ (r.0, ok control)
unfolding restore_inherited
restore_inherited_lem machine inherited is control c e =
    let same : (length (fds_from 4 (length is))
          == length (map (λ (kv : Bytes × Item). kv.1.restore) is))
        ≡ true =
      rw (length-fds_from 4 (length is), length-records is) (==_refl (length is)) in
    rw (without_last-fds_from 4 (length is), same) (takes_control inherited first_fd control _ c e)

over-none : (r : Option BridgeRestore) → over r none ≡ r
over-none none = refl
over-none (some x) = refl

-- Over any bridges that Start made, each for its own serial, fewer than 2 ^ 61 of them, and with a
-- listener for every descriptor from 3 on, the new daemon takes everything over: it reads the
-- descriptors off the list that the handoff writes for its files, and with them and the records of the
-- snapshot, and no bridge at first, it comes to have the control listener, and each serial has
-- exactly the record that it had in the old daemon, none included.
pub restore_inherited-snapshot :
    (machine : Machine) (inherited : Inherited) (m : Manager) (control : ℕ)
    → IsValid m
    → AllMade m.items
    → length m.items < 2 ^ 61
    → inherited first_fd ≡ ok control
    → Inherits inherited (suc first_fd) (length m.items)
    → let fds = fds_from first_fd (length (snapshot m) + 2) in
      let r =
        restore_inherited machine inherited fds (map (λ item. item.0) (snapshot m)) new_manager in
      (parse_inherit_fds (fd_spec (length (snapshot m) + 2)) ≡ ok fds)
      × (r.1 ≡ ok control)
      × ((j : Bytes) → recorded j r.0.items ≡ recorded j m.items)
unfolding snapshot
restore_inherited-snapshot machine inherited m control v d few c h =
    let takes =
      adopt_all-Made machine inherited m.next_item (suc first_fd) m.items new_manager d v
        (λ j i e. unfold lookup new_manager in refl) h in
    let size = snapshot_size m.items in
    let restored = λ (k : ℕ) (rs : List BridgeRestore).
      restore_inherited machine inherited (fds_from first_fd k) rs new_manager in
    let now : restored (length (snapshot m) + 2) (map (λ item. item.0) (snapshot m)) ≡ _ =
      ap (λ k. restored k (map (λ (item : BridgeRestore × ℕ). item.0) (snapshot m))) size
      ∙ ap (restored (suc (suc (length m.items)))) (snapshot_records m.items)
      ∙ restore_inherited_lem machine inherited m.items control c takes.no_error in
    (
      parse_inherit_fds-fd_spec (length (snapshot m) + 2) (omega (arith, size))
          (omega (arith, size)),
      ap (λ r. r.1) now,
      λ j.
          ap (λ r. recorded j r.0.items) now
          ∙ takes.records j
          ∙ (unfold lookup new_manager in over-none (recorded j m.items)),
    )
