-- ===== src/Service/Leak.antt =====
-- What becomes of a connection to the device that arrives after its service was closed
-- (service.run, service.close and closeOnce in internal/bridge/service.go).
use adb_tcp_bridge.Common.{
  ℕ, ◌≡◌, ◌∙◌, sym, subst, refl, ◌≢◌, Bool, true, false, ◌&&◌, Option, none, some, List, [], ◌∷◌,
  arith, Bytes, ltb, ◌==◌, if_elim, length, take,
}
use adb_tcp_bridge.Stream.{write}
use adb_tcp_bridge.Service.{
  Link, Error, Conn, Phase, opening, answering, reading, awaiting_open, awaiting_write,
  awaiting_reply, finished, Service, close, ack, write_conn, write_service, finish, after_write,
  send_write, run_opened, pump, send_reply, send_payload_and_close, Event, backend_opened,
  backend_failed, handler_done, read_done, wake_ack, wake_done, acked, closing, client_data, other,
  wake, is_waiting, task_step, step, run,
}

-- The service was closed, its goroutine is past OpenService, and its connection is open.
pub record IsLeaking (s : Service) : Type 0 where
  pub closed : s.done ≡ true
  pub past : s.phase ≢ opening
  pub has_open_conn : (c : Conn) × (s.conn ≡ some c) × (c.is_open ≡ true)

abbrev Leaks : Service × Link → Type 0
Leaks r = IsLeaking r.0

IsLeaking-phase :
    (s : Service) (k : Phase) → k ≢ opening → IsLeaking s → IsLeaking (record s { phase = k })
IsLeaking-phase s k n h = record { closed = h.closed; past = n; has_open_conn = h.has_open_conn }

finish-Leaks : (s : Service) (l : Link) → IsLeaking s → Leaks (finish s l)
unfolding finish close
finish-Leaks s l h =
    if_elim (λ (t : Service). IsLeaking (record t { phase = finished })) s.done
      (λ _. IsLeaking-phase s finished (λ e. cc) h) (λ e. cc (e, h.closed))

after_write-Leaks :
    (s : Service) (k : Phase) (r : Link × Option Error)
    → k ≢ opening
    → IsLeaking s
    → Leaks (after_write s k r)
unfolding after_write
after_write-Leaks s k (l, none) n h = IsLeaking-phase s k n h
after_write-Leaks s k (l, some e) n h = finish-Leaks s l h

send_write-Leaks :
    (payload : Bytes) (k : Phase) (s : Service) (l : Link)
    → k ≢ opening
    → IsLeaking s
    → Leaks (send_write payload k s l)
unfolding send_write
send_write-Leaks payload k s l n h =
    if_elim Leaks (s.remote_id == 0) (λ _. finish-Leaks s l h) (λ _. after_write-Leaks s k _ n h)

reply-Leaks :
    (payload : Bytes) (s : Service) (r : Link × Option Error)
    → IsLeaking s
    → Leaks (send_reply payload s r)
unfolding send_reply
reply-Leaks payload s (l, none) h = send_write-Leaks payload awaiting_reply s l (λ e. cc) h
reply-Leaks payload s (l, some e) h = finish-Leaks s l h

IsLeaking-fields :
    (s : Service) (remote : ℕ) (token op : Bool) (buffer : ℕ)
    → IsLeaking s
    → IsLeaking
        (record s { remote_id = remote; ack_token = token; is_opened = op; buffer = buffer })
IsLeaking-fields s remote token op buffer h = record {
  closed = h.closed;
  past = h.past;
  has_open_conn = h.has_open_conn;
}

task_step-Leaks :
    (k : Phase) (e : Event) (s : Service) (l : Link)
    → s.phase ≡ k
    → IsLeaking s
    → Leaks (task_step k e s l)
unfolding task_step send_payload_and_close pump
task_step-Leaks opening (backend_opened c) s l q h = absurd (h.past q)
task_step-Leaks opening backend_failed s l q h = absurd (h.past q)
task_step-Leaks answering (handler_done payload) s l q h =
    reply-Leaks payload _ _ (IsLeaking-fields s s.remote_id s.ack_token true s.buffer h)
task_step-Leaks reading (read_done bytes ended) s l q h =
    if_elim Leaks (ltb 0 (length (take s.buffer bytes)))
      (λ _. send_write-Leaks _ (awaiting_write ended) s l (λ e. cc) h)
      (λ _. if_elim Leaks ended (λ _. finish-Leaks s l h) (λ _. h))
task_step-Leaks _ _ s l q h = h

wake-Leaks : (k : Phase) (s : Service) (l : Link) → IsLeaking s → Leaks (wake k s l)
unfolding wake
wake-Leaks awaiting_open s l h =
    IsLeaking-phase _ reading (λ e. cc)
      (IsLeaking-fields s s.remote_id s.ack_token s.is_opened l.max_payload h)
wake-Leaks (awaiting_write false) s l h = IsLeaking-phase s reading (λ e. cc) h
wake-Leaks (awaiting_write true) s l h = finish-Leaks s l h
wake-Leaks awaiting_reply s l h = finish-Leaks s l h
wake-Leaks _ s l h = h

write_conn-is_open : (payload : Bytes) (c : Conn) → (write_conn payload c).0.is_open ≡ c.is_open
write_conn-is_open payload c = unfold write in ground arith

write-Leaks : (payload : Bytes) (s : Service) → IsLeaking s → IsLeaking (write_service payload s).0
unfolding write_service
write-Leaks payload s h =
    let (c, e, o) = h.has_open_conn in
    rw (e, write_service)
      (record {
        closed = h.closed;
        past = h.past;
        has_open_conn = ((write_conn payload c).0, refl, write_conn-is_open payload c ∙ o);
      })

close-Leaks : (s : Service) → IsLeaking s → IsLeaking (close s)
unfolding close
close-Leaks s h = if_elim IsLeaking s.done (λ _. h) (λ e. cc (e, h.closed))

step-Leaks : (e : Event) (s : Service) (l : Link) → IsLeaking s → Leaks (step e s l)
unfolding step ack
step-Leaks wake_ack s l h =
    if_elim Leaks (is_waiting s.phase && s.ack_token)
      (λ _. wake-Leaks s.phase _ l (IsLeaking-fields s s.remote_id false s.is_opened s.buffer h))
      (λ _. h)
step-Leaks wake_done s l h =
    if_elim Leaks (is_waiting s.phase && s.done) (λ _. finish-Leaks s l h) (λ _. h)
step-Leaks (acked remote) s l h = IsLeaking-fields s _ true true s.buffer h
step-Leaks closing s l h = close-Leaks s h
step-Leaks (client_data payload) s l h = write-Leaks payload s h
step-Leaks (other p) s l h = h
step-Leaks (backend_opened c) s l h = task_step-Leaks s.phase (backend_opened c) s l refl h
step-Leaks backend_failed s l h = task_step-Leaks s.phase backend_failed s l refl h
step-Leaks (handler_done payload) s l h = task_step-Leaks s.phase (handler_done payload) s l refl h
step-Leaks (read_done bytes ended) s l h =
    task_step-Leaks s.phase (read_done bytes ended) s l refl h

run-Leaks : (es : List Event) (s : Service) (l : Link) → IsLeaking s → Leaks (run es s l)
unfolding run
run-Leaks [] s l h = h
run-Leaks (e ∷ es) s l h =
    let r : Service × Link = step e s l in run-Leaks es r.0 r.1 (step-Leaks e s l h)

opened_write-Leaks :
    (s : Service) (c : Conn) (r : Link × Option Error)
    → s.done ≡ true
    → s.conn ≡ some c
    → c.is_open ≡ true
    → Leaks (after_write s reading r)
unfolding after_write finish close
opened_write-Leaks s c (l, none) d q o = record {
  closed = d;
  past = λ e. cc;
  has_open_conn = (c, q, o);
}
opened_write-Leaks s c (l, some e) d q o =
    if_elim (λ (t : Service). IsLeaking (record t { phase = finished })) s.done
      (λ _. record { closed = d; past = λ e. cc; has_open_conn = (c, q, o) }) (λ f. cc (d, f))

opened-Leaks :
    (s : Service) (l : Link) (c : Conn) (k : Phase)
    → k ≡ opening
    → s.done ≡ true
    → c.is_open ≡ true
    → Leaks (task_step k (backend_opened c) s l)
opened-Leaks s l c k q d o =
    subst (λ k. Leaks (task_step k (backend_opened c) s l)) (sym q)
      (unfold task_step run_opened in opened_write-Leaks _ c _ d refl o)

-- If a service is closed while OpenService is still pending and OpenService then returns an open
-- connection to the device, that connection is never closed, whatever happens afterwards: not by
-- the goroutine's finish, nor by another close.
pub late_conn_stays_open :
    (s : Service) (l : Link) (c : Conn) (es : List Event)
    → s.phase ≡ opening
    → s.done ≡ true
    → c.is_open ≡ true
    → (d : Conn) × ((run (backend_opened c ∷ es) s l).0.conn ≡ some d) × (d.is_open ≡ true)
unfolding run step
late_conn_stays_open s l c es q d o =
    let r : Service × Link = task_step s.phase (backend_opened c) s l in
    (run-Leaks es r.0 r.1 (opened-Leaks s l c s.phase q d o)).has_open_conn
