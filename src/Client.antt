-- ===== src/Client.antt =====
-- internal/client/client.go: the client of the daemon's control socket.
-- Time is a number of nanoseconds. What a dial, a request or a start of a process meets is a parameter,
-- and a response is a value: the JSON and the socket between are left out. Loops run on fuel, one
-- for a round.
pub mod Waiting
use adb_tcp_bridge.Common.{
  ℕ, zero, suc, ◌+◌, Bool, true, false, not, ◌&&◌, ◌||◌, Option, none, some, Bytes, codes, bytes_eq,
  Result, ok, err, ltb, ◌==◌, if◌then◌else◌,
}
use adb_tcp_bridge.Daemon.Handler.{Response}

-- 200 ms and 50 ms
abbrev pub ready_pause : ℕ
ready_pause = 200_000_000

abbrev pub start_pause : ℕ
start_pause = 50_000_000

-- 5 s
abbrev pub default_start_timeout : ℕ
default_start_timeout = 5_000_000_000

-- What comes of a connection: none, one on which no response can be read, or a response.
pub data Exchange : Type 0 where
  no_connection no_response : Exchange
  response : Response → Exchange

-- `err == nil && resp.OK && resp.Version > 0`
unfoldable pub shows_ready : Exchange → Bool
shows_ready no_connection = false
shows_ready no_response = false
shows_ready (response r) = (elim r.error [ none ↦ true | some e ↦ false ]) && ltb 0 r.version

pub data Waited : Type 0 where
  ready timed_out cancelled out_of_fuel : Waited

-- The rounds of a loop: what each meets, how long that takes, and whether the context is cancelled
-- before the pause is over.
pub record Rounds : Type 0 where
  pub meets : ℕ → Exchange
  pub takes : ℕ → ℕ
  pub cancels : ℕ → Bool

-- The loop of WaitReady from the k-th round on, at a time.
unfoldable pub wait_rounds : Rounds → ℕ → ℕ → ℕ → ℕ → Waited
wait_rounds rounds deadline zero k now = out_of_fuel
wait_rounds rounds deadline (suc fuel) k now =
    let later = now + rounds.takes k in
    let next = wait_rounds rounds deadline fuel (suc k) (later + ready_pause) in
    if shows_ready (rounds.meets k)
    then ready
    else if ltb deadline later
    then timed_out
    else if rounds.cancels k
    then cancelled
    else next

-- WaitReady, called at a time, with so much fuel.
unfoldable pub wait_ready : Rounds → ℕ → ℕ → ℕ → Waited
wait_ready rounds timeout fuel now = wait_rounds rounds (now + timeout) fuel 0 now

-- `err == nil` of a dial
abbrev pub connects : Exchange → Bool
connects no_connection = false
connects no_response = true
connects (response r) = true

-- The loop of ensureDaemon after the process was started; the context is looked at before a dial.
unfoldable pub start_rounds : Rounds → (ℕ → Bool) → ℕ → ℕ → ℕ → ℕ → Waited
start_rounds rounds is_done deadline zero k now = out_of_fuel
start_rounds rounds is_done deadline (suc fuel) k now =
    let later = now + rounds.takes k in
    let next = start_rounds rounds is_done deadline fuel (suc k) (later + start_pause) in
    if not (ltb now deadline)
    then timed_out
    else if is_done k
    then cancelled
    else if connects (rounds.meets k)
    then ready
    else if rounds.cancels k
    then cancelled
    else next

pub data Error : Type 0 where
  not_connected : Error
  not_started : Error
  start_not_ready : Waited → Error
  lost_after_start : Error
  no_answer : Error
  refused : Response → Error

-- What a call meets: the first dial with its exchange, whether the process starts, the rounds of waiting
-- for it with the time at which they begin, and the dial after it. The client's StartTimeout is one
-- that is not below 0.
pub record World : Type 0 where
  pub first : Exchange
  pub starts : Bool
  pub rounds : Rounds
  pub is_done : ℕ → Bool
  pub now : ℕ
  pub start_timeout : ℕ
  pub second : Exchange

abbrev pub answer : Exchange → Error → Result Error Response
answer no_connection e = err e
answer no_response e = err no_answer
answer (response r) e = elim r.error [ none ↦ ok r | some reason ↦ err (refused r) ]

-- ensureDaemon, after the process was started.
unfoldable pub await_daemon : World → ℕ → Waited
unfolding start_rounds
await_daemon world fuel =
    let timeout = if world.start_timeout == 0 then default_start_timeout else world.start_timeout in
    start_rounds world.rounds world.is_done (world.now + timeout) fuel 0 world.now

abbrev pub after_start : World → Waited → Result Error Response
after_start world ready = answer world.second lost_after_start
after_start world timed_out = err (start_not_ready timed_out)
after_start world cancelled = err (start_not_ready cancelled)
after_start world out_of_fuel = err (start_not_ready out_of_fuel)

-- call: whether it tried to start a daemon, and its result.
unfoldable pub call : World → Bool → ℕ → Bool × Result Error Response
unfolding await_daemon
call world auto_start fuel =
    if connects world.first
    then (false, answer world.first not_connected)
    else if not auto_start
    then (false, err not_connected)
    else if not world.starts
    then (true, err not_started)
    else (true, after_start world (await_daemon world fuel))
