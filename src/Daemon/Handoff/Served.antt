-- ===== src/Daemon/Handoff/Served.antt =====
-- Whatever a daemon has served, its bridges are handed over.
use adb_tcp_bridge.Common.{
  ℕ, suc, ◌+◌, ◌^◌, ◌<◌, ◌≡◌, refl, sym, subst, inl, inr, Bool, true, not, Option, none, some, List,
  [], ◌∷◌, map, arith, Bytes, codes, bytes_eq, Result, ok, err, if_elim, length, Option-cases,
}
use adb_tcp_bridge.Daemon.Manager.{
  BridgeInfo, BridgeRestore, Item, Manager, new_manager, lookup, delete, insert, runs, StartConfig,
  make_item, start_item, Prepared, start_prepared, start, serve_exit, stop, snapshot, update,
  on_backend_result, keep_live, is_expired, reap_expired,
}
use adb_tcp_bridge.Daemon.Manager
use adb_tcp_bridge.Daemon.Manager.Bridges.{
  IsValid, starts, exits, stops, result, reaps, step, step-IsValid,
}
use adb_tcp_bridge.Daemon.Handler.{
  Request, Response, Server, Settings, Platform, settings, is_backend, started, stopped,
  handle_start, handle_stop, handle_restart, dispatch, handle_request,
}
use adb_tcp_bridge.Daemon.Preparing.{Machine, knows_backend, prepare}
use adb_tcp_bridge.Daemon.Preparing.Adopted.{prepare-serial}
use adb_tcp_bridge.Daemon.Handoff.{
  first_fd, fds_from, fd_spec, parse_inherit_fds, Inherited, restore_inherited,
}
use adb_tcp_bridge.Daemon.Handoff.Takeover.{Made, AllMade, recorded, Inherits}
use adb_tcp_bridge.Daemon.Handoff.Kept.{
  delete-AllMade, keep_live-AllMade, update-AllMade, exit-AllMade,
}
use adb_tcp_bridge.Daemon.Handoff.Restored.{restore_inherited-snapshot}

-- The daemon's platform on a machine.
abbrev pub platform : Machine → Platform
platform machine = record { supports_restart = true; prepare = prepare machine }

-- What happens to a daemon: a request, on the machine as it is then, the end of a bridge's goroutine,
-- a result of a backend, or a run of the reaper.
pub data Happening : Type 0 where
  asks : Machine → Request → Happening
  ends : Bytes → ℕ → ℕ → Happening
  tries : Bytes → Bool → ℕ → Happening
  cleans : ℕ → Happening

unfoldable pub happens : Happening → Server → Server
happens (asks machine r) s = (handle_request (platform machine) r s).0
happens (ends serial id l) s = record s { manager = serve_exit serial id l s.manager }
happens (tries serial fine now) s = record s {
  manager = on_backend_result serial fine now s.manager;
}
happens (cleans now) s = record s { manager = reap_expired now s.manager }

unfoldable pub served : List Happening → Server → Server
served [] s = s
served (h ∷ hs) s = served hs (happens h s)

-- A manager whose bridges can be handed over.
abbrev Ready : Manager → Type 0
Ready m = IsValid m × AllMade m.items

prepared-AllMade :
    (machine : Machine) (s : Settings) (p : Prepared) (m : Manager)
    → prepare machine s ≡ p
    → knows_backend s.backend_name ≡ true
    → AllMade m.items
    → AllMade (start_prepared p m).0.items
unfolding start_prepared start_item
prepared-AllMade machine s (err e) m q k d = d
prepared-AllMade machine s (ok (cfg, l, r)) m q k d =
    let made : Made cfg.serial (make_item cfg l r m.next_item) = record {
      machine = machine;
      settings = s;
      config = cfg;
      listener = l;
      prepared = unfold make_item in q;
      known = k;
      own_serial = unfold make_item in prepare-serial machine s cfg l r q;
    } in
    if_elim (λ (x : Manager × Result Manager.Error BridgeInfo). AllMade x.0.items)
      (runs cfg.serial m) (λ _. d) (λ _. (made, delete-AllMade cfg.serial m.items d))

start-Ready :
    (machine : Machine) (s : Settings) (m : Manager)
    → knows_backend s.backend_name ≡ true
    → Ready m
    → Ready (start s.serial (prepare machine s) m).0
unfolding start step
start-Ready machine s m k (v, d) =
    let P = λ (x : Manager × Result Manager.Error BridgeInfo). AllMade x.0.items in
    (
      step-IsValid (starts s.serial (prepare machine s)) m v,
      if_elim P (bytes_eq s.serial []) (λ _. d)
          λ _.
            if_elim P (runs s.serial m) (λ _. d)
              λ _.
                prepared-AllMade machine s (prepare machine s) (record m { reaper_started = true })
                  refl k d,
    )

stop-Ready : (serial : Bytes) (m : Manager) → Ready m → Ready (stop serial m).0
unfolding step
stop-Ready serial m (v, d) = (
  step-IsValid (stops serial) m v,
  unfold stop in
      elim (Option-cases (lookup serial m.items)) [
        | inl e ↦ rw (e, stop) d
        | inr (i, e) ↦ rw (e, stop) (delete-AllMade serial m.items d)
      ],
)

started_manager :
    (s : Server) (r : Manager × Result Manager.Error BridgeInfo) → (started s r).0.manager ≡ r.0
started_manager s (m, ok info) = refl
started_manager s (m, err e) = refl

stopped_manager : (s : Server) (r : Manager × Option Manager.Error) → (stopped s r).0.manager ≡ r.0
stopped_manager s (m, none) = refl
stopped_manager s (m, some e) = refl

backend_known : (name : Bytes) → is_backend name ≡ true → knows_backend name ≡ true
backend_known name e = ground arith

abbrev Served : Server × Response → Type 0
Served x = Ready x.0.manager

start-Served :
    (machine : Machine) (r : Request) (s : Server)
    → Ready s.manager
    → Served (handle_start (platform machine) r s)
unfolding handle_start
start-Served machine r s v =
    let cfg = settings r in
    if_elim Served (bytes_eq r.serial []) (λ _. v)
      λ _.
        if_elim Served (not (is_backend cfg.backend_name)) (λ _. v)
          λ e.
            subst Ready (sym (started_manager s (start cfg.serial (prepare machine cfg) s.manager)))
              (start-Ready machine cfg s.manager (backend_known cfg.backend_name (ground arith)) v)

stop-Served : (r : Request) (s : Server) → Ready s.manager → Served (handle_stop r s)
unfolding handle_stop
stop-Served r s v =
    if_elim Served (bytes_eq r.serial []) (λ _. v)
      λ _.
        subst Ready (sym (stopped_manager s (stop r.serial s.manager)))
          (stop-Ready r.serial s.manager v)

dispatch-Served :
    (machine : Machine) (r : Request) (s : Server)
    → Ready s.manager
    → Served (dispatch (platform machine) r s)
unfolding dispatch handle_restart
dispatch-Served machine r s v =
    if_elim Served (bytes_eq r.op (codes "version")) (λ _. v)
      λ _.
        if_elim Served (bytes_eq r.op (codes "start"))
          (λ _. if_elim Served s.restarting (λ _. v) (λ _. start-Served machine r s v))
          λ _.
            if_elim Served (bytes_eq r.op (codes "stop"))
              (λ _. if_elim Served s.restarting (λ _. v) (λ _. stop-Served r s v))
              λ _.
                if_elim Served (bytes_eq r.op (codes "restart"))
                  (λ _. if_elim Served s.restarting (λ _. v) (λ _. v))
                  λ _.
                    if_elim Served (bytes_eq r.op (codes "list")) (λ _. v)
                      λ _.
                        if_elim Served (bytes_eq r.op (codes "status")) (λ _. v)
                          λ _. if_elim Served (bytes_eq r.op (codes "shutdown")) (λ _. v) (λ _. v)

happens-Ready : (h : Happening) (s : Server) → Ready s.manager → Ready (happens h s).manager
unfolding happens handle_request step
happens-Ready (asks machine r) s v =
    let d = dispatch-Served machine r s v in if_elim Served _ (λ _. d) (λ _. d)
happens-Ready (ends serial id l) s (v, d) =
    (step-IsValid (exits serial id l) s.manager v, exit-AllMade serial id l s.manager d)
happens-Ready (tries serial fine now) s (v, d) = (
  step-IsValid (result serial fine now) s.manager v,
  unfold on_backend_result in update-AllMade serial fine now s.manager.items d,
)
happens-Ready (cleans now) s (v, d) = (
  step-IsValid (reaps now) s.manager v,
  unfold reap_expired in keep_live-AllMade now s.manager.clean_after_failure s.manager.items d,
)

served-Ready : (hs : List Happening) (s : Server) → Ready s.manager → Ready (served hs s).manager
unfolding served
served-Ready [] s v = v
served-Ready (h ∷ hs) s v = served-Ready hs (happens h s) (happens-Ready h s v)

-- Whatever a daemon that began with no bridge has served and met, on whatever machine each request found,
-- its bridges survive a restart: if there are fewer than 2 ^ 61, and every descriptor from 3 on gives
-- a listener in the new daemon, then the new daemon reads the descriptors off the list that the handoff
-- writes, and with the snapshot's records it comes to have the control listener, and for every serial
-- exactly the record that the old daemon had, none included.
pub restore_inherited-served :
    (hs : List Happening) (s : Server) (machine : Machine) (inherited : Inherited) (control : ℕ)
    → s.manager ≡ new_manager
    → length (served hs s).manager.items < 2 ^ 61
    → inherited first_fd ≡ ok control
    → Inherits inherited (suc first_fd) (length (served hs s).manager.items)
    → let m = (served hs s).manager in
      let fds = fds_from first_fd (length (snapshot m) + 2) in
      let r =
        restore_inherited machine inherited fds (map (λ item. item.0) (snapshot m)) new_manager in
      (parse_inherit_fds (fd_spec (length (snapshot m) + 2)) ≡ ok fds)
      × (r.1 ≡ ok control)
      × ((j : Bytes) → recorded j r.0.items ≡ recorded j m.items)
restore_inherited-served hs s machine inherited control e few c h =
    let empty : Ready new_manager = unfold new_manager in (tt, tt) in
    let (v, d) = served-Ready hs s (subst Ready (sym e) empty) in
    restore_inherited-snapshot machine inherited (served hs s).manager control v d few c h
