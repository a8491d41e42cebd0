-- ===== src/Service/Credit.antt =====
-- Flow control over a whole run of a service (sendWriteAndWaitAck in internal/bridge/service.go).
use adb_tcp_bridge.Common.{ℕ, ◌+◌, ◌≤◌, ◌≡◌, ◌∙◌, refl, List, [], ◌∷◌, arith, Bytes, ap, All}
use adb_tcp_bridge.Service.{Link, Phase, Service, new_service, Event, acked, step, run}
use adb_tcp_bridge.Service.Flow.{
  writes, acks, pending, Balance, After, IsOther, After-mono, step-Balance,
}
use adb_tcp_bridge.Service.Identity.{step-local_id}

acks-cons : (e : Event) (es : List Event) → acks (e ∷ es) ≡ acks (e ∷ []) + acks es
unfolding acks
acks-cons (acked r) es = ground arith
acks-cons _ es = ground arith

run-Balance :
    (n : ℕ) (es : List Event) (s : Service) (l : Link)
    → All (IsOther s.local_id) es
    → Balance n s l
    → After (n + acks es) (run es s l)
unfolding run
run-Balance n [] s l o h = unfold acks in omega arith
run-Balance n (e ∷ es) s l (o, os) h =
    let r : Service × Link = step e s l in
    let ih : After (n + acks (e ∷ []) + acks es) (run es r.0 r.1) =
      run-Balance (n + acks (e ∷ [])) es r.0 r.1 (rw (step-local_id e s l) os)
        (step-Balance n e s l o h) in
    After-mono (n + acks (e ∷ []) + acks es) (n + acks (e ∷ es)) (run es r.0 r.1)
      (omega (arith, acks-cons e es)) ih

run-local_id : (es : List Event) (s : Service) (l : Link) → (run es s l).0.local_id ≡ s.local_id
unfolding run
run-local_id [] s l = refl
run-local_id (e ∷ es) s l =
    let r : Service × Link = step e s l in run-local_id es r.0 r.1 ∙ step-local_id e s l

-- From the start of a service, whatever the device, the client and the rest of the session do, the
-- WRTE packets that it has written are at most the acks that were received for it, plus one if its
-- goroutine waits for the ack of a WRTE or has finished. The packets that others write in between
-- must not be WRTEs under its local id.
pub writes-le-acks :
    (id remote : ℕ) (name : Bytes) (k : Phase) (l : Link) (es : List Event)
    → All (IsOther id) es
    → let (s', l') = run es (new_service id remote name k) l in
      writes id l'.packets ≤ writes id l.packets + acks es + pending s'.phase
unfolding new_service
writes-le-acks id remote name k l es o =
    let s : Service = new_service id remote name k in
    omega (
      arith,
      run-Balance (writes id l.packets) es s l o (omega arith),
      ap (λ i. writes i (run es s l).1.packets) (run-local_id es s l),
    )
