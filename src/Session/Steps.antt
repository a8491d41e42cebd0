-- ===== src/Session/Steps.antt =====
-- The whole of a session: the read loop of `run`, the goroutines of the services, and the
-- connections that come in on reverse listeners, as steps in any order.
use adb_tcp_bridge.Common.{
  ℕ, Bool, true, false, Option, none, some, List, [], ◌∷◌, Bytes, codes, cut_prefix, ◌==◌,
  if◌then◌else◌,
}
use adb_tcp_bridge.Wire.{Packet}
use adb_tcp_bridge.Service.{
  Link, Service, Conn, Phase, finished, answering, awaiting_open, backend_opened, backend_failed,
  handler_done, read_done, wake_ack, wake_done, run_outbound,
}
use adb_tcp_bridge.Service
use adb_tcp_bridge.Reverse
use adb_tcp_bridge.Reverse.Overlap.{
  Task, checks, evicts, tears, goes_on, kills, kills_all, answered, advance, begin,
}
use adb_tcp_bridge.Session.{Session, Error, get, remove, put, start_service, handle_packet, close}

pub data Event : Type 0 where
  -- ReadPacket returned a packet; the first argument is what rand.Read would give
  received : Option Bytes → Packet → Event
  -- ReadPacket failed, or the context was cancelled
  ended : Event
  -- the goroutine of a service goes on
  task : ℕ → Service.Event → Event
  -- the goroutine of a local service runs the next part of its handler
  answer : ℕ → Event
  -- a reverse listener accepted a connection for the mapping with this local side
  accepted : Bytes → Conn → Event

-- The steps of a goroutine, as against those of handlePacket.
abbrev pub is_task : Service.Event → Bool
is_task (backend_opened _) = true
is_task backend_failed = true
is_task (read_done _ _) = true
is_task wake_ack = true
is_task wake_done = true
is_task _ = false

abbrev pub is_finished : Phase → Bool
is_finished finished = true
is_finished _ = false

-- A service after a step: finish takes it out of the map.
unfoldable pub settle : ℕ → Session → Service × Link → Session
settle id s (svc, l) = record s {
  link = l;
  services = if is_finished svc.phase then remove id s.services else put id svc s.services;
}

-- The read loop stops at the first error, and close is deferred.
unfoldable pub end_on_error : Session × Option Error → Session
end_on_error (s, none) = s
end_on_error (s, some e) = close s

abbrev pub is_answering : Phase → Bool
is_answering answering = true
is_answering _ = false

unfoldable pub handler : ℕ → List (ℕ × Task) → Option Task
handler id [] = none
handler id ((k, t) ∷ ts) = if k == id then some t else handler id ts

unfoldable pub drop_handler : ℕ → List (ℕ × Task) → List (ℕ × Task)
drop_handler id [] = []
drop_handler id ((k, t) ∷ ts) =
    let rest = drop_handler id ts in if k == id then rest else (k, t) ∷ rest

abbrev pub hold : ℕ → Task → Session → Session
hold id t s = record s { handlers = (id, t) ∷ drop_handler id s.handlers }

-- A goroutine after a part of its handler: once that has answered, the service sends the answer and
-- closes, unless it has left the map.
unfoldable pub settle_handler : ℕ → Task → Session → Session
unfolding drop_handler
settle_handler id (answered payload) s =
    let s' = record s { handlers = drop_handler id s.handlers } in
    elim (get id s.services) [
      | none ↦ s'
      | some svc ↦ settle id s' (Service.task_step svc.phase (handler_done payload) svc s'.link)
    ]
settle_handler id (checks b local remote h port) s = hold id (checks b local remote h port) s
settle_handler id (evicts key a) s = hold id (evicts key a) s
settle_handler id (tears m a) s = hold id (tears m a) s
settle_handler id (goes_on a) s = hold id (goes_on a) s
settle_handler id (kills local m) s = hold id (kills local m) s
settle_handler id (kills_all ms) s = hold id (kills_all ms) s

-- The first part of the handler of a service. Commands of a session overlap: their parts are separate
-- steps of it.
unfoldable pub answer_service : ℕ → Service → Session → Session
answer_service id svc s = elim (cut_prefix (codes "reverse:") svc.name) [
  | none ↦ s
  | some command ↦
      let (reverse, t) = begin s.config.device command s.reverse in
      if is_answering svc.phase then settle_handler id t (record s { reverse = reverse }) else s
]

-- The next part of the handler of a goroutine that is at one.
unfoldable pub advance_handler : ℕ → Task → Session → Session
advance_handler id t s =
    let (reverse, t') = advance s.config.device t s.reverse in
    settle_handler id t' (record s { reverse = reverse })

-- openOutbound
unfoldable pub open_outbound : Bytes → Conn → Session → Session
open_outbound name c s =
    let (svc, s') = start_service name 0 awaiting_open s in
    settle svc.local_id s' (run_outbound c svc s'.link)

unfoldable pub step : Event → Session → Session
step (received rand p) s = if s.link.closed then s else end_on_error (handle_packet rand p s)
step ended s = close s
step (task id e) s = elim (get id s.services) [
  | none ↦ s
  | some svc ↦ if is_task e then settle id s (Service.step e svc s.link) else s
]
step (answer id) s = elim (handler id s.handlers) [
  | some t ↦ advance_handler id t s
  | none ↦ elim (get id s.services) [ none ↦ s | some svc ↦ answer_service id svc s ]
]
step (accepted local c) s = elim (Reverse.lookup local s.reverse.mappings) [
  | none ↦ s
  | some m ↦ open_outbound m.remote c s
]

unfoldable pub run : List Event → Session → Session
run [] s = s
run (e ∷ es) s = run es (step e s)
