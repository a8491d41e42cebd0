-- ===== src/Service/Flow.antt =====
-- Flow control: a service never sends data that the client has not made room for by an ack.
use adb_tcp_bridge.Common.{
  ℕ, suc, ◌+◌, ◌≤◌, ◌≡◌, refl, inl, inr, Bool, true, false, ◌&&◌, Option, none, some, List, [], ◌∷◌,
  ◌++◌, arith, Bytes, ltb, ◌==◌, if◌then◌else◌, if_elim, Option-cases, ap, length, take,
}
use adb_tcp_bridge.Wire.{Packet, cmd_wrte, cmd_clse}
use adb_tcp_bridge.Service.{
  Link, Error, Phase, opening, answering, reading, awaiting_open, awaiting_write, awaiting_reply,
  finished, Service, report, write_packet, close, ack, write_service, finish_link, finish,
  after_write, send_write, okay_packet, run_opened, run_failed, pump, send_reply,
  send_payload_and_close, Event, backend_opened, backend_failed, handler_done, read_done, wake_ack,
  wake_done, acked, closing, client_data, other, wake, is_waiting, task_step, step,
}

-- A WRTE that carries the local id.
unfoldable pub is_write : ℕ → Packet → Bool
is_write id p = p.command == cmd_wrte && p.arg0 == id

unfoldable pub writes : ℕ → List Packet → ℕ
writes id [] = 0
writes id (p ∷ ps) = (if is_write id p then 1 else 0) + writes id ps

-- The acks among the events.
unfoldable pub acks : List Event → ℕ
acks [] = 0
acks (acked _ ∷ es) = suc (acks es)
acks (_ ∷ es) = acks es

writes-append : (id : ℕ) (ps qs : List Packet) → writes id (ps ++ qs) ≡ writes id ps + writes id qs
unfolding writes
writes-append id [] qs = omega arith
writes-append id (p ∷ ps) qs = omega (arith, writes-append id ps qs)

abbrev pub bit : Bool → ℕ
bit true = 1
bit false = 0

-- A WRTE whose ack is awaited, or may never come.
abbrev pub pending : Phase → ℕ
pending (awaiting_write _) = 1
pending awaiting_reply = 1
pending finished = 1
pending _ = 0

-- The WRTEs sent and the ack at hand are paid for, by n, but for the one that is pending.
abbrev pub Balance : ℕ → Service → Link → Type 0
Balance n s l = writes s.local_id l.packets + bit s.ack_token ≤ n + pending s.phase

abbrev pub After : ℕ → Service × Link → Type 0
After n r = Balance n r.0 r.1

-- The same for a service that stops here.
abbrev Settled : ℕ → Service → Link → Type 0
Settled n s l = writes s.local_id l.packets + bit s.ack_token ≤ n + 1

Balance-Settled : (n : ℕ) (s : Service) (l : Link) → Balance n s l → Settled n s l
Balance-Settled n s l h = ground arith

writes-write_packet :
    (id : ℕ) (p : Packet) (l : Link)
    → writes id (write_packet p l).0.packets ≤ writes id l.packets + bit (is_write id p)
unfolding write_packet
writes-write_packet id p l = unfold writes in ground (arith, writes-append id l.packets (p ∷ []))

finish-Balance : (n : ℕ) (s : Service) (l : Link) → Settled n s l → After n (finish s l)
unfolding finish finish_link close is_write
finish-Balance n s l h = ground (
  arith,
  writes-write_packet s.local_id
      (record {
        command = cmd_clse;
        arg0 = if s.is_opened then s.local_id else 0;
        arg1 = s.remote_id;
        payload = [];
      })
      l,
)

after_write-Balance :
    (n : ℕ) (s : Service) (next : Phase) (r : Link × Option Error)
    → writes s.local_id r.0.packets + bit s.ack_token ≤ n + pending next
    → After n (after_write s next r)
unfolding after_write
after_write-Balance n s next (l, none) h = h
after_write-Balance n s next (l, some e) h =
    finish-Balance n s l (Balance-Settled n (record s { phase = next }) l h)

send_write-Balance :
    (n : ℕ) (payload : Bytes) (next : Phase) (s : Service) (l : Link)
    → pending next ≡ 1
    → writes s.local_id l.packets + bit s.ack_token ≤ n
    → After n (send_write payload next s l)
unfolding send_write
send_write-Balance n payload next s l one h =
    if_elim (After n) (s.remote_id == 0) (λ _. finish-Balance n s l (omega arith))
      (λ _. after_write-Balance n s next _ (omega (arith, sent, one)))
  where
    p : Packet
    p = record { command = cmd_wrte; arg0 = s.local_id; arg1 = s.remote_id; payload = payload }

    bit-le : (b : Bool) → bit b ≤ 1
    bit-le true = omega arith
    bit-le false = omega arith

    sent : writes s.local_id (write_packet p l).0.packets ≤ writes s.local_id l.packets + 1
    sent = omega (arith, writes-write_packet s.local_id p l, bit-le (is_write s.local_id p))

-- A write of anything but one of the service's own WRTEs.
other_write-Balance :
    (n : ℕ) (id : ℕ) (p : Packet) (l : Link)
    → is_write id p ≡ false
    → writes id (write_packet p l).0.packets ≤ writes id l.packets
other_write-Balance n id p l e = omega (arith, writes-write_packet id p l, ap bit e)

pump-Balance :
    (n : ℕ) (bytes : Bytes) (ended : Bool) (s : Service) (l : Link)
    → s.phase ≡ reading
    → Balance n s l
    → After n (pump bytes ended s l)
unfolding pump
pump-Balance n bytes ended s l e h =
    let h' : writes s.local_id l.packets + bit s.ack_token ≤ n = omega (arith, h, ap pending e) in
    if_elim (After n) (ltb 0 (length (take s.buffer bytes)))
      (λ _. send_write-Balance n _ (awaiting_write ended) s l refl h')
      (λ _. if_elim (After n) ended (λ _. finish-Balance n s l (omega arith)) (λ _. h))

reply-Balance :
    (n : ℕ) (payload : Bytes) (s : Service) (r : Link × Option Error)
    → writes s.local_id r.0.packets + bit s.ack_token ≤ n
    → After n (send_reply payload s r)
unfolding send_reply
reply-Balance n payload s (l, none) h = send_write-Balance n payload awaiting_reply s l refl h
reply-Balance n payload s (l, some e) h = finish-Balance n s l (omega arith)

task_step-Balance :
    (n : ℕ) (k : Phase) (e : Event) (s : Service) (l : Link)
    → s.phase ≡ k
    → Balance n s l
    → After n (task_step k e s l)
unfolding task_step run_opened run_failed send_payload_and_close is_write
task_step-Balance n opening (backend_opened c) s l e h = after_write-Balance n _ reading _ (
    omega (
      arith,
      ap pending e,
      h,
      other_write-Balance n s.local_id (okay_packet s) (report true l) refl,
    ))
task_step-Balance n opening backend_failed s l e h =
    finish-Balance n s _ (omega (arith, ap pending e, h))
task_step-Balance n answering (handler_done payload) s l e h =
    reply-Balance n payload _ _
      (omega (arith, ap pending e, h, other_write-Balance n s.local_id (okay_packet s) l refl))
task_step-Balance n reading (read_done bytes ended) s l e h = pump-Balance n bytes ended s l e h
task_step-Balance n _ _ s l e h = h

wake-Balance :
    (n : ℕ) (k : Phase) (s : Service) (l : Link)
    → s.phase ≡ k
    → s.ack_token ≡ true
    → Balance n s l
    → After n (wake k (record s { ack_token = false }) l)
unfolding wake
wake-Balance n awaiting_open s l e t h = omega (arith, h, ap pending e, ap bit t)
wake-Balance n (awaiting_write false) s l e t h = omega (arith, h, ap pending e, ap bit t)
wake-Balance n (awaiting_write true) s l e t h =
    finish-Balance n _ l (omega (arith, h, ap pending e, ap bit t))
wake-Balance n awaiting_reply s l e t h =
    finish-Balance n _ l (omega (arith, h, ap pending e, ap bit t))
wake-Balance n _ s l e t h = omega (arith, h, ap bit t)

-- Writing to the backend and closing leave alone what the balance counts.
client_data-Balance :
    (n : ℕ) (payload : Bytes) (s : Service) (l : Link)
    → Balance n s l
    → After n ((write_service payload s).0, l)
unfolding write_service
client_data-Balance n payload s l h = elim (Option-cases s.conn) [
  | inl e ↦ rw (e, write_service) h
  | inr (c, e) ↦ rw (e, write_service) h
]

closing-Balance : (n : ℕ) (s : Service) (l : Link) → Balance n s l → After n (close s, l)
unfolding close
closing-Balance n s l h = ground arith

acked-Balance :
    (n remote : ℕ) (s : Service) (l : Link) → Balance n s l → After (n + 1) (ack remote s, l)
unfolding ack
acked-Balance n remote s l h = ground arith

-- A packet that is not one of the service's own WRTEs.
abbrev pub IsOther : ℕ → Event → Type 0
IsOther id (other p) = is_write id p ≡ false
IsOther id _ = Unit

pub After-mono : (n m : ℕ) (r : Service × Link) → n ≤ m → After n r → After m r
After-mono n m r h a = omega arith

pub step-Balance :
    (n : ℕ) (e : Event) (s : Service) (l : Link)
    → IsOther s.local_id e
    → Balance n s l
    → After (n + acks (e ∷ [])) (step e s l)
unfolding step acks
step-Balance n wake_ack s l o h = After-mono n (n + 0) (step wake_ack s l) (omega arith) (
    if_elim (After n) (is_waiting s.phase && s.ack_token)
      (λ w. wake-Balance n s.phase s l refl (ground arith) h) (λ _. h))
step-Balance n wake_done s l o h = After-mono n (n + 0) (step wake_done s l) (omega arith) (
    if_elim (After n) (is_waiting s.phase && s.done)
      (λ _. finish-Balance n s l (Balance-Settled n s l h)) (λ _. h))
step-Balance n (acked remote) s l o h = acked-Balance n remote s l h
step-Balance n closing s l o h =
    After-mono n (n + 0) (step closing s l) (omega arith) (closing-Balance n s l h)
step-Balance n (client_data payload) s l o h =
    After-mono n (n + 0) (step (client_data payload) s l) (omega arith)
      (client_data-Balance n payload s l h)
step-Balance n (other p) s l o h = omega (arith, other_write-Balance n s.local_id p l o)
step-Balance n (backend_opened c) s l o h =
    After-mono n (n + 0) (step (backend_opened c) s l) (omega arith)
      (task_step-Balance n s.phase (backend_opened c) s l refl h)
step-Balance n backend_failed s l o h =
    After-mono n (n + 0) (step backend_failed s l) (omega arith)
      (task_step-Balance n s.phase backend_failed s l refl h)
step-Balance n (handler_done payload) s l o h =
    After-mono n (n + 0) (step (handler_done payload) s l) (omega arith)
      (task_step-Balance n s.phase (handler_done payload) s l refl h)
step-Balance n (read_done bytes ended) s l o h =
    After-mono n (n + 0) (step (read_done bytes ended) s l) (omega arith)
      (task_step-Balance n s.phase (read_done bytes ended) s l refl h)
