-- ===== src/Service/Identity.antt =====
-- Nothing that happens to a service changes its local id.
use adb_tcp_bridge.Common.{
  ◌≡◌, refl, true, false, Option, none, some, arith, Bytes, ◌==◌, if_elim, take,
}
use adb_tcp_bridge.Service.{
  Link, Error, Phase, opening, answering, reading, awaiting_write, awaiting_reply, Service, close,
  ack, write_service, finish, after_write, send_write, run_opened, run_failed, pump, send_reply,
  send_payload_and_close, Event, backend_opened, backend_failed, handler_done, read_done, wake_ack,
  wake_done, acked, closing, client_data, other, wake, task_step, step,
}

after_write-local_id :
    (s : Service) (next : Phase) (r : Link × Option Error)
    → (after_write s next r).0.local_id ≡ s.local_id
unfolding after_write finish close
after_write-local_id s next (l, none) = refl
after_write-local_id s next (l, some e) = ground arith

finish-local_id : (s : Service) (l : Link) → (finish s l).0.local_id ≡ s.local_id
unfolding finish close
finish-local_id s l = ground arith

send_write-local_id :
    (payload : Bytes) (next : Phase) (s : Service) (l : Link)
    → (send_write payload next s l).0.local_id ≡ s.local_id
unfolding send_write
send_write-local_id payload next s l =
    if_elim (λ (r : Service × Link). r.0.local_id ≡ s.local_id) (s.remote_id == 0)
      (λ _. finish-local_id s l) (λ _. after_write-local_id s next _)

reply-local_id :
    (payload : Bytes) (s : Service) (r : Link × Option Error)
    → (send_reply payload s r).0.local_id ≡ s.local_id
unfolding send_reply
reply-local_id payload s (l, none) = send_write-local_id payload awaiting_reply s l
reply-local_id payload s (l, some e) = finish-local_id s l

task_step-local_id :
    (k : Phase) (e : Event) (s : Service) (l : Link) → (task_step k e s l).0.local_id ≡ s.local_id
unfolding task_step run_opened run_failed send_payload_and_close pump
task_step-local_id opening (backend_opened c) s l = after_write-local_id _ reading _
task_step-local_id opening backend_failed s l = finish-local_id s _
task_step-local_id answering (handler_done payload) s l = reply-local_id payload _ _
task_step-local_id reading (read_done bytes ended) s l = ground (
  arith,
  send_write-local_id (take s.buffer bytes) (awaiting_write ended) s l,
  finish-local_id s l,
)
task_step-local_id _ _ s l = refl

wake-local_id : (k : Phase) (s : Service) (l : Link) → (wake k s l).0.local_id ≡ s.local_id
unfolding wake
wake-local_id (awaiting_write true) s l = finish-local_id s l
wake-local_id awaiting_reply s l = finish-local_id s l
wake-local_id _ s l = refl

write_service-local_id :
    (payload : Bytes) (s : Service) → (write_service payload s).0.local_id ≡ s.local_id
unfolding write_service
write_service-local_id payload s = ground arith

pub step-local_id : (e : Event) (s : Service) (l : Link) → (step e s l).0.local_id ≡ s.local_id
unfolding step ack close
step-local_id wake_ack s l =
    ground (arith, wake-local_id s.phase (record s { ack_token = false }) l)
step-local_id wake_done s l = ground (arith, finish-local_id s l)
step-local_id (acked remote) s l = refl
step-local_id closing s l = ground arith
step-local_id (client_data payload) s l = write_service-local_id payload s
step-local_id (other p) s l = refl
step-local_id (backend_opened c) s l = task_step-local_id s.phase (backend_opened c) s l
step-local_id backend_failed s l = task_step-local_id s.phase backend_failed s l
step-local_id (handler_done payload) s l = task_step-local_id s.phase (handler_done payload) s l
step-local_id (read_done bytes ended) s l = task_step-local_id s.phase (read_done bytes ended) s l
