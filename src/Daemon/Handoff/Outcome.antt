-- ===== src/Daemon/Handoff/Outcome.antt =====
-- A handoff either hands everything over or leaves the old daemon at work.
use adb_tcp_bridge.Common.{
  ℕ, ◌+◌, ◌≡◌, ◌⊎◌, refl, ap, inl, inr, Bool, true, false, not, ◌&&◌, Option, none, some, [], map,
  arith, Bytes, bytes_eq, length, ==_iff, if_elim, Option-cases,
}
use adb_tcp_bridge.Daemon.Manager.{BridgeRestore, Manager, stop_all, snapshot}
use adb_tcp_bridge.Daemon.Handler.{Server, cancel_root}
use adb_tcp_bridge.Daemon.Accepting.{exit_run}
use adb_tcp_bridge.Daemon.Handoff.{
  World, Handoff, fd_spec, fail_handoff, fail_started, all_dup, is_ready, await_ready, handoff,
}

-- The new daemon reported that it was ready: the old one's context is cancelled, and at the end of its
-- Run neither closing its listener nor what follows removes the socket file, and StopAll is not called.
pub record Completed (world : World) (s : Server) (h : Handoff) : Type 0 where
  pub state : Bytes
  pub encoded : world.encode (map (λ item. item.0) (snapshot s.manager)) ≡ some state
  pub started : h.started_with ≡ some (fd_spec (length (snapshot s.manager) + 2), state)
  pub ready : world.ready_byte ≡ some 1
  pub cancelled : h.server ≡ cancel_root s
  pub alive : h.is_killed ≡ false
  pub leaves : (m : Manager) → exit_run h.handed_off h.unlinks m ≡ (false, m)

-- The server is as before the restart was accepted, and no new daemon is left: it was not started,
-- or it was killed. Closing the control listener unlinks the socket file as before, or no longer does;
-- when the daemon leaves, it removes the file and stops its bridges all the same.
pub record Aborted (unlinks : Bool) (s : Server) (h : Handoff) : Type 0 where
  pub resumed : h.server ≡ record s { restarting = false }
  pub no_other : (h.started_with ≡ none) ⊎ (h.is_killed ≡ true)
  pub trace : (h.unlinks ≡ unlinks) ⊎ (h.unlinks ≡ false)
  pub cleans : (m : Manager) → exit_run h.handed_off h.unlinks m ≡ (true, stop_all m)

fail_handoff-Aborted :
    (unlinks now : Bool) (s : Server)
    → (now ≡ unlinks) ⊎ (now ≡ false)
    → Aborted unlinks s (fail_handoff now s)
unfolding exit_run
fail_handoff-Aborted unlinks now s t = record {
  resumed = refl;
  no_other = inl refl;
  trace = t;
  cleans = λ m. refl;
}

fail_started-Aborted :
    (unlinks : Bool) (s : Server) (args : Bytes × Bytes)
    → Aborted unlinks s (fail_started false s args)
unfolding exit_run
fail_started-Aborted unlinks s args = record {
  resumed = refl;
  no_other = inr refl;
  trace = inr refl;
  cleans = λ m. refl;
}

ready_some : (o : Option ℕ) → not (is_ready o) ≡ false → o ≡ some 1
ready_some none e = cc
ready_some (some b) e = ap some ((==_iff b 1).0 (ground arith))

module _ (world : World) (unlinks : Bool) (s : Server) where
  Ends : Handoff → Type 0
  Ends h = Completed world s h ⊎ Aborted unlinks s h

  await_ready-Ends :
      (state : Bytes)
      → world.encode (map (λ item. item.0) (snapshot s.manager)) ≡ some state
      → Ends (await_ready world (fd_spec (length (snapshot s.manager) + 2), state) false s)
  unfolding await_ready Ends exit_run
  await_ready-Ends state e =
      let args : Bytes × Bytes = (fd_spec (length (snapshot s.manager) + 2), state) in
      let started : Ends (fail_started false s args) = inr (fail_started-Aborted unlinks s args) in
      if_elim Ends (not world.starts) (λ _. inr (fail_handoff-Aborted unlinks false s (inr refl)))
        λ _.
          if_elim Ends (not world.sets_deadline) (λ _. started)
            λ _.
              if_elim Ends (not (is_ready world.ready_byte)) (λ _. started)
                λ r. inl (record {
                  state = state;
                  encoded = e;
                  started = refl;
                  ready = ready_some world.ready_byte r;
                  cancelled = refl;
                  alive = refl;
                  leaves = λ m. refl;
                })

  -- Whatever goes wrong in a handoff, and at whatever step, it ends in one of two ways. Either the new
  -- daemon was started with the descriptors and the state of every bridge and wrote the ready byte, the
  -- old daemon's context is cancelled, with those of the bridges that it had started itself, and the end
  -- of its Run, the closing of its control listener included, leaves the socket file in place and does
  -- not call StopAll; or the old server is as it was but no longer restarting, a new daemon that was
  -- started was killed, and the only other trace is that closing the control listener may have ceased to
  -- unlink the socket file, which the end of Run still removes as it stops the bridges.
  pub handoff-Ends :
      (binary : Bytes)
      → Completed world s (handoff world binary unlinks s)
        ⊎ Aborted unlinks s (handoff world binary unlinks s)
  unfolding handoff Ends
  handoff-Ends binary =
      let untouched : Ends (fail_handoff unlinks s) =
        inr (fail_handoff-Aborted unlinks unlinks s (inl refl)) in
      let failed : Ends (fail_handoff false s) =
        inr (fail_handoff-Aborted unlinks false s (inr refl)) in
      let snap = snapshot s.manager in
      let state = world.encode (map (λ (item : BridgeRestore × ℕ). item.0) snap) in
      if_elim Ends (bytes_eq binary [] && not world.has_executable) (λ _. untouched)
        λ _.
          if_elim Ends (not world.has_control) (λ _. untouched)
            λ _.
              if_elim Ends (not world.dups_control) (λ _. failed)
                λ _.
                  if_elim Ends (not (all_dup world.dups snap)) (λ _. failed)
                    λ _.
                      if_elim Ends (not world.has_pipe) (λ _. failed)
                        λ _. elim (Option-cases state) [
                          | inl e ↦ rw e failed
                          | inr (text, e) ↦ rw e (await_ready-Ends text e)
                        ]
