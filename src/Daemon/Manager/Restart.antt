-- ===== src/Daemon/Manager/Restart.antt =====
-- Starting, stopping and the late end of a stopped bridge's goroutine.
use adb_tcp_bridge.Common.{
  ℕ, suc, ◌<◌, ◌≡◌, refl, ap, ◌∙◌, false, none, some, List, arith, Bytes, bytes_eq, bytes_eq_refl,
  ok, err, ◌==◌, ==_iff,
}
use adb_tcp_bridge.Daemon.Manager.{
  BridgeRestore, Item, Manager, no_bridge, lookup, delete, insert, runs, cancel, StartConfig,
  make_item, start_item, serve_exit, stop, status,
}
use adb_tcp_bridge.Daemon.Manager.Bridges.{IsValid, lookup-delete, lookup-id}

lookup-insert :
    (k : Bytes) (i : Item) (is : List (Bytes × Item)) → lookup k (insert k i is) ≡ some i
unfolding lookup
lookup-insert k i is = ground (arith, bytes_eq_refl k)

stop_lem :
    (serial : Bytes) (m : Manager) (i : Item)
    → lookup serial m.items ≡ some i
    → stop serial m ≡ (cancel i.id (record m { items = delete serial m.items }), none)
unfolding stop
stop_lem serial m i e = rw (e, stop)

deleted_none : (serial : Bytes) (is : List (Bytes × Item)) → lookup serial (delete serial is) ≡ none
deleted_none serial is = ground (arith, lookup-delete serial serial is, bytes_eq_refl serial)

deleted_other :
    (serial other : Bytes) (is : List (Bytes × Item))
    → bytes_eq serial other ≡ false
    → lookup other (delete serial is) ≡ lookup other is
deleted_other serial other is d = ground (arith, lookup-delete other serial is)

-- Stopping a bridge cancels it and takes it, and no other, out of the manager: the status of its
-- serial is an error afterwards, and every other serial has the status that it had.
pub stop-status :
    (serial other : Bytes) (m : Manager) (i : Item)
    → lookup serial m.items ≡ some i
    → bytes_eq serial other ≡ false
    → (stop serial m ≡ (cancel i.id (record m { items = delete serial m.items }), none))
      × (status serial (stop serial m).0 ≡ err (no_bridge serial))
      × (status other (stop serial m).0 ≡ status other m)
stop-status serial other m i e d =
    let h = stop_lem serial m i e in
    unfold status in
    (
      h,
      rw (h, status, deleted_none serial m.items) refl,
      rw (h, status, deleted_other serial other m.items d) refl,
    )

pub starts_free :
    (cfg : StartConfig) (listener : ℕ) (restore : BridgeRestore) (m : Manager)
    → lookup cfg.serial m.items ≡ none
    → start_item cfg listener restore m ≡ (
      record m {
        next_item = suc m.next_item;
        items = insert cfg.serial (make_item cfg listener restore m.next_item) m.items;
      },
      ok (make_item cfg listener restore m.next_item).info,
    )
unfolding start_item
starts_free cfg listener restore m e =
    let r : runs cfg.serial m ≡ false = unfold runs in rw (runs, e) refl in rw (start_item, r) refl

-- The end of a goroutine whose bridge is not the one recorded for its serial changes no status.
late_exit :
    (serial : Bytes) (id listener : ℕ) (m : Manager) (i : Item)
    → lookup serial m.items ≡ some i
    → id < i.id
    → status serial (serve_exit serial id listener m) ≡ ok i.info
late_exit serial id listener m i e h =
    let d : (i.id == id) ≡ false = ground (arith, ==_iff i.id id) in
    unfold serve_exit status in rw (serve_exit, e, d, status, e) refl

-- If a bridge is stopped and its serial started again before the goroutine of the stopped bridge has
-- ended, the end of that goroutine leaves the new bridge alone: the start succeeds, and the status
-- of the serial afterwards is the new bridge's.
pub late_exit_keeps_restarted :
    (cfg : StartConfig) (listener : ℕ) (restore : BridgeRestore) (m : Manager) (i : Item)
    → IsValid m
    → lookup cfg.serial m.items ≡ some i
    → let (m', r) = start_item cfg listener restore (stop cfg.serial m).0 in
      (r ≡ ok (make_item cfg listener restore m.next_item).info)
      × (status cfg.serial (serve_exit cfg.serial i.id i.listener m')
          ≡ ok (make_item cfg listener restore m.next_item).info)
unfolding make_item
late_exit_keeps_restarted cfg listener restore m i v e =
    let s : start_item cfg listener restore (stop cfg.serial m).0 ≡ _ =
      ap (λ x. start_item cfg listener restore x.0) (stop_lem cfg.serial m i e)
      ∙ starts_free cfg listener restore
          (cancel i.id (record m { items = delete cfg.serial m.items }))
          (deleted_none cfg.serial m.items) in
    (
      ap (λ x. x.1) s,
      ap (λ x. status cfg.serial (serve_exit cfg.serial i.id i.listener x.0)) s
          ∙ late_exit cfg.serial i.id i.listener _ (make_item cfg listener restore m.next_item)
              (lookup-insert cfg.serial _ (delete cfg.serial m.items))
              (lookup-id m.next_item cfg.serial m.items i v e).0,
    )
