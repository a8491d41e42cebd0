-- ===== src/Examples/Service.antt =====
-- The goroutine of a service.
use adb_tcp_bridge.Common.{◌+◌, ◌≤◌, ◌≡◌, refl, true, false, some, List, [], ◌∷◌, codes}
use adb_tcp_bridge.Stream.{new_writer}
use adb_tcp_bridge.Service.{
  Link, Conn, opening, Service, new_service, close, Event, backend_opened, read_done, wake_ack,
  acked, closing, run,
}
use adb_tcp_bridge.Service.Flow.{writes, acks, pending}
use adb_tcp_bridge.Service.Credit.{writes-le-acks}
use adb_tcp_bridge.Service.Leak.{late_conn_stays_open}

abbrev link : Link
link = record { packets = []; budget = 9; closed = false; max_payload = 4096; reports = [] }

abbrev device : Conn
device = record { out = new_writer 9; is_open = true }

-- Two chunks of output, each acknowledged.
abbrev two_chunks : List Event
two_chunks =
    backend_opened device
    ∷ read_done (codes "a") false
    ∷ acked 2
    ∷ wake_ack
    ∷ read_done (codes "b") true
    ∷ acked 2
    ∷ wake_ack
    ∷ []

writes-le-acks_example :
    let (s', l') = run two_chunks (new_service 1 2 (codes "shell:") opening) link in
    writes 1 l'.packets ≤ writes 1 link.packets + acks two_chunks + pending s'.phase
writes-le-acks_example =
    writes-le-acks 1 2 (codes "shell:") opening link two_chunks
      (tt, (tt, (tt, (tt, (tt, (tt, (tt, tt)))))))

-- Closed while OpenService is pending.
abbrev closed_early : Service
closed_early = close (new_service 1 2 (codes "shell:") opening)

late_conn_stays_open_example :
    (d : Conn) × ((run (backend_opened device ∷ closing ∷ []) closed_early link).0.conn ≡ some d)
    × (d.is_open ≡ true)
unfolding close new_service
late_conn_stays_open_example =
    late_conn_stays_open closed_early link device (closing ∷ []) refl refl refl
