-- ===== src/Service.antt =====
-- internal/bridge/service.go: one service of a session, with the goroutine that drives it.
-- The goroutine is cut at the places where it waits (OpenService, conn.Read, the two selects); what
-- it does from one to the next is one step. What the rest of the session does in between, the acks
-- and closes of handlePacket and the packets of other services, are steps too.
pub mod Flow
pub mod Identity
pub mod Credit
pub mod Leak
use adb_tcp_bridge.Common.{
  ℕ, zero, suc, ◌+◌, Bool, true, false, not, ◌&&◌, Option, none, some, List, [], ◌∷◌, ◌++◌, Bytes,
  ltb, ◌==◌, if◌then◌else◌, length, take,
}
use adb_tcp_bridge.Stream.{Writer, write}
use adb_tcp_bridge.Wire.{Packet, cmd_okay, cmd_wrte, cmd_open, cmd_clse}

-- The side of the session that its services write to: the packets that the client was sent, the
-- number of packets that its connection will still take, the flag `closed`, the payload limit, and
-- the results handed to OnBackendResult.
pub record Link : Type 0 where
  pub packets : List Packet
  pub budget : ℕ
  pub closed : Bool
  pub max_payload : ℕ
  pub reports : List Bool

pub data Error : Type 0 where
  closed_pipe : Error
  peer_write_failed : Error
  backend_write_failed : Error

-- The connection to the device.
pub record Conn : Type 0 where
  pub out : Writer
  pub is_open : Bool

-- Where the goroutine of a service waits.
pub data Phase : Type 0 where
  -- in Backend.OpenService
  opening : Phase
  -- in a local handler
  answering : Phase
  -- in conn.Read of the pump
  reading : Phase
  -- in the select of sendOpenAndWaitAck
  awaiting_open : Phase
  -- in the select of sendWriteAndWaitAck; the flag says that the read before it ended in an error
  awaiting_write : Bool → Phase
  -- in the select of sendWriteAndWaitAck, called by sendPayloadAndClose
  awaiting_reply : Phase
  finished : Phase

pub record Service : Type 0 where
  pub local_id : ℕ
  pub remote_id : ℕ
  pub name : Bytes
  pub conn : Option Conn
  -- the channel `done` is closed
  pub done : Bool
  -- the channel `ackCh`, of capacity one, holds a token
  pub ack_token : Bool
  pub is_opened : Bool
  -- the length of the pump's buffer
  pub buffer : ℕ
  pub phase : Phase

unfoldable pub new_service : ℕ → ℕ → Bytes → Phase → Service
new_service local_id remote_id name phase = record {
  local_id = local_id;
  remote_id = remote_id;
  name = name;
  conn = none;
  done = false;
  ack_token = false;
  is_opened = false;
  buffer = 0;
  phase = phase;
}

-- session.writePacket, with adbwire.WritePacket as one write of a whole packet.
unfoldable pub write_packet : Packet → Link → Link × Option Error
write_packet p l = if l.closed then (l, some closed_pipe) else elim l.budget [
  | zero ↦ (l, some peer_write_failed)
  | suc n ↦ (record l { packets = l.packets ++ (p ∷ []); budget = n }, none)
]

abbrev pub report : Bool → Link → Link
report fine l = record l { reports = l.reports ++ (fine ∷ []) }

abbrev pub close_conn : Option Conn → Option Conn
close_conn none = none
close_conn (some c) = some (record c { is_open = false })

-- service.close; closeOnce makes a second call do nothing.
unfoldable pub close : Service → Service
close s = if s.done then s else record s { done = true; conn = close_conn s.conn }

-- service.ack
unfoldable pub ack : ℕ → Service → Service
ack remote s = record s {
  remote_id = if s.remote_id == 0 then remote else s.remote_id;
  is_opened = true;
  ack_token = true;
}

-- conn.Write of the payload, if the connection is open.
abbrev pub write_conn : Bytes → Conn → Conn × Option Error
write_conn payload c =
    let (w, fine) = write payload c.out in
    if c.is_open && fine then (record c { out = w }, none) else (c, some backend_write_failed)

-- service.write
unfoldable pub write_service : Bytes → Service → Service × Option Error
write_service payload s = elim s.conn [
  | none ↦ (s, some closed_pipe)
  | some c ↦ let (c', e) = write_conn payload c in (record s { conn = some c' }, e)
]

-- What the deferred finish writes: no packet for a service that neither side knows, else a CLSE,
-- with 0 in place of the local id if the service never opened.
unfoldable pub finish_link : Service → Link → Link
finish_link s l =
    if not s.is_opened && s.remote_id == 0
    then l
    else (write_packet
        (record {
          command = cmd_clse;
          arg0 = if s.is_opened then s.local_id else 0;
          arg1 = s.remote_id;
          payload = [];
        })
        l).0

-- finish, but for removeService, which is the session's.
unfoldable pub finish : Service → Link → Service × Link
finish s l = let s' = close s in (record s' { phase = finished }, finish_link s' l)

-- What a goroutine does with the outcome of a writePacket: on an error it returns, which runs
-- finish; otherwise it goes on to wait in the given phase.
unfoldable pub after_write : Service → Phase → Link × Option Error → Service × Link
after_write s next (l, none) = (record s { phase = next }, l)
after_write s next (l, some e) = finish s l

-- sendWriteAndWaitAck, up to its select.
unfoldable pub send_write : Bytes → Phase → Service → Link → Service × Link
send_write payload next s l =
    if s.remote_id == 0
    then finish s l
    else after_write s next (
        write_packet
          (record { command = cmd_wrte; arg0 = s.local_id; arg1 = s.remote_id; payload = payload })
          l)

abbrev pub okay_packet : Service → Packet
okay_packet s = record { command = cmd_okay; arg0 = s.local_id; arg1 = s.remote_id; payload = [] }

-- run, once OpenService has returned a connection. The pump's buffer is as long as maxPayload is now.
unfoldable pub run_opened : Conn → Service → Link → Service × Link
run_opened c s l =
    let s' = record s { conn = some c; is_opened = true; buffer = l.max_payload } in
    after_write s' reading (write_packet (okay_packet s') (report true l))

-- run, once OpenService has failed.
unfoldable pub run_failed : Service → Link → Service × Link
run_failed s l = finish s (report false l)

-- runOutbound, up to the select of sendOpenAndWaitAck.
unfoldable pub run_outbound : Conn → Service → Link → Service × Link
run_outbound c s l =
    let s' = record s { conn = some c } in
    after_write s' awaiting_open (
      write_packet
        (record { command = cmd_open; arg0 = s.local_id; arg1 = 0; payload = s.name ++ (0 ∷ []) })
        l)

-- One round of pumpConnToClient after conn.Read, which has filled at most the buffer; `ended` says
-- that Read returned an error with the data.
unfoldable pub pump : Bytes → Bool → Service → Link → Service × Link
pump bytes ended s l =
    let chunk = take s.buffer bytes in
    if ltb 0 (length chunk)
    then send_write chunk (awaiting_write ended) s l
    else if ended
    then finish s l
    else (s, l)

-- sendPayloadAndClose, after its OKAY was written or not.
unfoldable pub send_reply : Bytes → Service → Link × Option Error → Service × Link
send_reply payload s (l, none) = send_write payload awaiting_reply s l
send_reply payload s (l, some e) = finish s l

unfoldable pub send_payload_and_close : Bytes → Service → Link → Service × Link
send_payload_and_close payload s l =
    let s' = record s { is_opened = true } in
    send_reply payload s' (write_packet (okay_packet s') l)

-- What can happen to a service.
pub data Event : Type 0 where
  backend_opened : Conn → Event
  backend_failed : Event
  handler_done : Bytes → Event
  read_done : Bytes → Bool → Event
  -- a select takes the ack, or sees `done` closed
  wake_ack wake_done : Event
  -- handleOkay, handleClose and handleWrite of the session
  acked : ℕ → Event
  closing : Event
  client_data : Bytes → Event
  -- a packet that another part of the session writes
  other : Packet → Event

-- The select of a waiting goroutine took the ack.
unfoldable pub wake : Phase → Service → Link → Service × Link
wake awaiting_open s l = (record s { phase = reading; buffer = l.max_payload }, l)
wake (awaiting_write false) s l = (record s { phase = reading }, l)
wake (awaiting_write true) s l = finish s l
wake awaiting_reply s l = finish s l
wake _ s l = (s, l)

abbrev pub is_waiting : Phase → Bool
is_waiting awaiting_open = true
is_waiting (awaiting_write _) = true
is_waiting awaiting_reply = true
is_waiting _ = false

-- The steps of the goroutine depend on where it waits; a step that is not possible changes nothing.
unfoldable pub task_step : Phase → Event → Service → Link → Service × Link
task_step opening (backend_opened c) s l = run_opened c s l
task_step opening backend_failed s l = run_failed s l
task_step answering (handler_done payload) s l = send_payload_and_close payload s l
task_step reading (read_done bytes ended) s l = pump bytes ended s l
task_step _ _ s l = (s, l)

unfoldable pub step : Event → Service → Link → Service × Link
step wake_ack s l =
    if is_waiting s.phase && s.ack_token
    then wake s.phase (record s { ack_token = false }) l
    else (s, l)
step wake_done s l = if is_waiting s.phase && s.done then finish s l else (s, l)
step (acked remote) s l = (ack remote s, l)
step closing s l = (close s, l)
step (client_data payload) s l = ((write_service payload s).0, l)
step (other p) s l = (s, (write_packet p l).0)
step (backend_opened c) s l = task_step s.phase (backend_opened c) s l
step backend_failed s l = task_step s.phase backend_failed s l
step (handler_done payload) s l = task_step s.phase (handler_done payload) s l
step (read_done bytes ended) s l = task_step s.phase (read_done bytes ended) s l

unfoldable pub run : List Event → Service → Link → Service × Link
run [] s l = (s, l)
run (e ∷ es) s l = let (s', l') = step e s l in run es s' l'
