-- ===== src/Daemon/Accepting/Late.antt =====
-- The connections that the old daemon accepts after a restart was requested.
use adb_tcp_bridge.Common.{
  ℕ, ◌+◌, ◌≤◌, ◌≡◌, refl, ap, ◌∙◌, Bool, true, false, Option, none, some, List, [], ◌∷◌, ◌++◌,
  arith, codes, bytes_eq, append_assoc,
}
use adb_tcp_bridge.Daemon.Handler.{
  Request, Response, Server, Platform, handle_request, handle_restart, dispatch, accept,
  protocol_version,
}
use adb_tcp_bridge.Daemon.Handler.Freeze.{request-restarting}
use adb_tcp_bridge.Daemon.Accepting.{
  Loop, checking, accepting, ended, Runner, Event, looks, accepts, accept_fails, handles, look,
  looked, accepted, accept_failed, take_at, handled, step, run,
}

abbrev pub in_accept : Loop → ℕ
in_accept accepting = 1
in_accept checking = 0
in_accept ended = 0

-- The connections that are accepted in a run.
unfoldable pub count_accepted : Platform → List Event → Runner → ℕ
count_accepted platform [] r = 0
count_accepted platform (looks ∷ es) r = count_accepted platform es (step platform looks r)
count_accepted platform (accepts q ∷ es) r =
    in_accept r.loop + count_accepted platform es (step platform (accepts q) r)
count_accepted platform (accept_fails ∷ es) r =
    count_accepted platform es (step platform accept_fails r)
count_accepted platform (handles n ∷ es) r =
    count_accepted platform es (step platform (handles n) r)

-- The runner is restarting, and is not nearer to accepting a connection than so many.
abbrev Held : ℕ → Runner → Type 0
Held n r = (r.server.restarting ≡ true) × (in_accept r.loop ≤ n)

look_held : (cancelled : Bool) → in_accept (look true cancelled) ≤ 0
look_held true = omega arith
look_held false = omega arith

looked-Held :
    (l : Loop) (r : Runner)
    → r.loop ≡ l
    → r.server.restarting ≡ true
    → Held (in_accept l) (looked l r)
looked-Held checking r e h = (h, rw h (look_held r.server.is_cancelled))
looked-Held accepting r e h = (h, rw e (omega arith))
looked-Held ended r e h = (h, rw e (omega arith))

handled-Held :
    (platform : Platform) (o : Option (Request × List Request)) (r : Runner)
    → r.server.restarting ≡ true
    → Held (in_accept r.loop) (handled platform o r)
handled-Held platform none r h = (h, omega arith)
handled-Held platform (some (q, qs)) r h = (request-restarting platform q r.server h, omega arith)

accepted-Held :
    (q : Request) (l : Loop) (r : Runner)
    → r.loop ≡ l
    → r.server.restarting ≡ true
    → Held 0 (accepted q l r)
accepted-Held q checking r e h = (h, rw e (omega arith))
accepted-Held q accepting r e h = (h, omega arith)
accepted-Held q ended r e h = (h, rw e (omega arith))

accept_failed-Held :
    (l : Loop) (r : Runner)
    → r.loop ≡ l
    → r.server.restarting ≡ true
    → Held (in_accept l) (accept_failed l r)
accept_failed-Held checking r e h = (h, rw e (omega arith))
accept_failed-Held accepting r e h = (h, omega arith)
accept_failed-Held ended r e h = (h, rw e (omega arith))

-- From a restart that was accepted on, and until its handoff has failed, the old daemon accepts at most
-- one more connection, and that only if its loop was in Accept already; with any interleaving of the
-- loop, the connections and the goroutines that handle them.
pub count_accepted-restarting :
    (platform : Platform) (es : List Event) (r : Runner)
    → r.server.restarting ≡ true
    → count_accepted platform es r ≤ in_accept r.loop
unfolding count_accepted step
count_accepted-restarting platform [] r h = omega arith
count_accepted-restarting platform (looks ∷ es) r h =
    let (a, b) = looked-Held r.loop r refl h in
    omega (arith, b, count_accepted-restarting platform es (looked r.loop r) a)
count_accepted-restarting platform (accepts q ∷ es) r h =
    let (a, b) = accepted-Held q r.loop r refl h in
    omega (arith, b, count_accepted-restarting platform es (accepted q r.loop r) a)
count_accepted-restarting platform (accept_fails ∷ es) r h =
    let (a, b) = accept_failed-Held r.loop r refl h in
    omega (arith, b, count_accepted-restarting platform es (accept_failed r.loop r) a)
count_accepted-restarting platform (handles n ∷ es) r h =
    let (a, b) = handled-Held platform (take_at n r.pending) r h in
    omega
      (arith, b, count_accepted-restarting platform es (handled platform (take_at n r.pending) r) a)

restart_lem :
    (platform : Platform) (q : Request) (s : Server)
    → q.op ≡ codes "restart"
    → platform.supports_restart ≡ true
    → s.restarting ≡ false
    → handle_request platform q s
      ≡ (record s { restarting = true; handoffs = q.binary ∷ s.handoffs }, accept s)
unfolding handle_request dispatch handle_restart bytes_eq
restart_lem platform q s o p h = rw (o, p, h) refl

version_lem :
    (platform : Platform) (q : Request) (s : Server)
    → q.op ≡ codes "version"
    → handle_request platform q s ≡ (s, record (accept s) { version = protocol_version })
unfolding handle_request dispatch bytes_eq
version_lem platform q s o = rw o refl

abbrev at : Server → Loop → List Request → List Response → Runner
at s l qs a = record { server = s; loop = l; pending = qs; answered = a }

-- The old daemon can answer a probe although it has accepted a restart before: whenever the loop comes
-- to its head before the goroutine of a restart request has run, a version request that comes after
-- the restart was accepted is answered by the old daemon, without an error and with its version,
-- while it is restarting.
pub late_probe :
    (platform : Platform) (q probe : Request) (s : Server) (a : List Response)
    → q.op ≡ codes "restart"
    → probe.op ≡ codes "version"
    → platform.supports_restart ≡ true
    → s.restarting ≡ false
    → let r : Runner = record { server = s; loop = checking; pending = q ∷ []; answered = a } in
      let r' = run platform (looks ∷ handles 0 ∷ accepts probe ∷ handles 0 ∷ []) r in
      (r'.server.restarting ≡ true)
      × (r'.answered ≡ a ++ (accept s ∷ record (accept s) { version = protocol_version } ∷ []))
unfolding run step
late_probe platform q probe s a o v p h =
    let s' : Server = record s { restarting = true; handoffs = q.binary ∷ s.handoffs } in
    let first = λ (r : Runner). handled platform (take_at 0 r.pending) r in
    let second = λ (r : Runner). first (accepted probe r.loop r) in
    let all : run platform (looks ∷ handles 0 ∷ accepts probe ∷ handles 0 ∷ [])
          (at s checking (q ∷ []) a)
        ≡ at s' checking []
            ((a ++ (accept s ∷ [])) ++ (record (accept s) { version = protocol_version } ∷ [])) =
      ap (λ b. second (first (at s (look b s.is_cancelled) (q ∷ []) a))) h
      ∙ ap (λ (x : Server × Response). second (at x.0 accepting [] (a ++ (x.1 ∷ []))))
          (restart_lem platform q s o p h)
      ∙ ap (λ (x : Server × Response). at x.0 checking [] ((a ++ (accept s ∷ [])) ++ (x.1 ∷ [])))
          (version_lem platform probe s' v) in
    (ap (λ r. r.server.restarting) all, ap (λ r. r.answered) all ∙ append_assoc a (accept s ∷ []) _)
