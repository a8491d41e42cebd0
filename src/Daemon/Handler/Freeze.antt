-- ===== src/Daemon/Handler/Freeze.antt =====
-- The bridges are frozen from an accepted restart on.
use adb_tcp_bridge.Common.{
  ◌≡◌, ◌∙◌, refl, true, false, Option, none, some, List, [], ◌∷◌, arith, Result, ok, err,
  if◌then◌else◌, length, All, bytes_eq, codes,
}
use adb_tcp_bridge.Daemon.Handler.{
  Request, Server, Platform, settings, started, stopped, handle_start, handle_stop, handle_restart,
  dispatch, handle_request,
}
use adb_tcp_bridge.Daemon.Manager.{BridgeInfo, Manager, start, stop}
use adb_tcp_bridge.Daemon.Manager

-- The state after some requests, in the order in which they are dispatched.
unfoldable pub serve : Platform → List Request → Server → Server
serve platform [] s = s
serve platform (r ∷ rs) s = serve platform rs (handle_request platform r s).0

module _ (platform : Platform) where
  pub record Frozen (s s' : Server) : Type 0 where
    pub same_manager : s'.manager ≡ s.manager
    pub still_restarting : s'.restarting ≡ true
    pub same_handoffs : s'.handoffs ≡ s.handoffs

  dispatch-Frozen :
      (r : Request) (s : Server) → s.restarting ≡ true → Frozen s (dispatch platform r s).0
  unfolding dispatch handle_restart
  dispatch-Frozen r s h = ground arith

  -- Whatever the request.
  pub request-restarting :
      (r : Request) (s : Server)
      → s.restarting ≡ true
      → (handle_request platform r s).0.restarting ≡ true
  unfolding handle_request
  request-restarting r s h = ground (arith, (dispatch-Frozen r s h).still_restarting)

  request-Frozen :
      (r : Request) (s : Server)
      → bytes_eq r.op (codes "shutdown") ≡ false
      → s.restarting ≡ true
      → Frozen s (handle_request platform r s).0
  unfolding handle_request
  request-Frozen r s q h = rw q (dispatch-Frozen r s h)

  -- A shutdown cancels the contexts of bridges, and is left out.
  abbrev pub IsNoShutdown : Request → Type 0
  IsNoShutdown r = bytes_eq r.op (codes "shutdown") ≡ false

  -- Once a restart was accepted, no sequence of requests without a shutdown, each handled as a whole,
  -- changes the bridges or cancels their contexts, ends the restart or begins another handoff, until
  -- the handoff itself is over.
  pub serve-Frozen :
      (rs : List Request) (s : Server)
      → All IsNoShutdown rs
      → s.restarting ≡ true
      → Frozen s (serve platform rs s)
  unfolding serve
  serve-Frozen [] s n h = record { same_manager = refl; still_restarting = h; same_handoffs = refl }
  serve-Frozen (r ∷ rs) s (n, ns) h =
      let a = request-Frozen r s n h in
      let b = serve-Frozen rs (handle_request platform r s).0 ns a.still_restarting in
      record {
        same_manager = b.same_manager ∙ a.same_manager;
        still_restarting = b.still_restarting;
        same_handoffs = b.same_handoffs ∙ a.same_handoffs;
      }

  -- The handoffs that were begun, counted by the flag.
  abbrev Counted : Server → Type 0
  Counted s = length s.handoffs ≡ (if s.restarting then 1 else 0)

  started-Counted :
      (s : Server) (r : Manager × Result Manager.Error BridgeInfo)
      → Counted s
      → Counted (started s r).0
  started-Counted s (m, ok info) h = h
  started-Counted s (m, err e) h = h

  stopped-Counted :
      (s : Server) (r : Manager × Option Manager.Error) → Counted s → Counted (stopped s r).0
  stopped-Counted s (m, none) h = h
  stopped-Counted s (m, some e) h = h

  start-Counted : (r : Request) (s : Server) → Counted s → Counted (handle_start platform r s).0
  unfolding handle_start
  start-Counted r s h = ground (
    arith,
    started-Counted s (start (settings r).serial (platform.prepare (settings r)) s.manager) h,
  )

  stop-Counted : (r : Request) (s : Server) → Counted s → Counted (handle_stop r s).0
  unfolding handle_stop
  stop-Counted r s h = ground (arith, stopped-Counted s (stop r.serial s.manager) h)

  request-Counted : (r : Request) (s : Server) → Counted s → Counted (handle_request platform r s).0
  unfolding handle_request dispatch handle_restart
  request-Counted r s h = ground (arith, start-Counted r s h, stop-Counted r s h)

  -- However many restarts are asked for, the daemon begins at most one handoff until that one has
  -- failed, and it has begun one exactly when its flag says that it is restarting, as long as that
  -- holds at the start.
  pub serve-single_handoff :
      (rs : List Request) (s : Server)
      → length s.handoffs ≡ (if s.restarting then 1 else 0)
      → length (serve platform rs s).handoffs ≡ (if (serve platform rs s).restarting then 1 else 0)
  unfolding serve
  serve-single_handoff [] s h = h
  serve-single_handoff (r ∷ rs) s h =
      serve-single_handoff rs (handle_request platform r s).0 (request-Counted r s h)
