-- ===== src/Hdc/Sync/Pipe.antt =====
-- internal/hdcserver/sync.go: one direction of the in-memory pipe between a client and serveSync.
-- Where a select has two ways to go on, `pick` says by the number of chunks that are queued whether it
-- takes the one of the closed end.
pub mod Order
use adb_tcp_bridge.Common.{
  ℕ, zero, suc, ◌+◌, ◌≤◌, ◌<◌, ◌≡◌, refl, sym, ap, ◌∙◌, Bool, true, false, not, ◌&&◌, List, [], ◌∷◌,
  ◌++◌, arith, Bytes, ltb, if◌then◌else◌, if_elim, length, length-append, take, drop,
  take-append-drop, append_assoc, append-nil,
}

-- make(chan []byte, 1024)
abbrev pub pipe_capacity : ℕ
pipe_capacity = 1024

-- The channel, and what the reader has left of the last chunk; closing the writer closes the channel.
pub record Half : Type 0 where
  pub queue : List Bytes
  pub buffered : Bytes
  pub writer_closed : Bool
  pub reader_closed : Bool

abbrev pub new_half : Half
new_half = record { queue = []; buffered = []; writer_closed = false; reader_closed = false }

pub data Written : Type 0 where
  wrote refused waits : Written

-- bufferedPipeConn.Write: to send on the closed channel panics, which is recovered from.
unfoldable pub pipe_write : Bytes → Half → Half × Written
pipe_write bytes h =
    if h.writer_closed
    then (h, refused)
    else if ltb (length h.queue) pipe_capacity
    then (record h { queue = h.queue ++ (bytes ∷ []) }, wrote)
    else (h, waits)

pub data Got : Type 0 where
  got : Bytes → Got
  at_end closed nothing_yet : Got

abbrev pub copied : ℕ → Bytes → Half → Half × Got
copied n bytes h = (record h { buffered = drop n bytes }, got (take n bytes))

-- What Read gives when no chunk is queued.
abbrev pub no_chunk : Bool → Bool → Bool → Got
no_chunk true true b = closed
no_chunk true false b = at_end
no_chunk false c true = closed
no_chunk false c false = nothing_yet

-- The loop of Read, with no chunk in hand.
unfoldable pub receive_chunk : ℕ → (ℕ → Bool) → List Bytes → Half → Half × Got
receive_chunk n pick [] h =
    (record h { queue = [] }, no_chunk h.writer_closed (h.reader_closed && pick 0) h.reader_closed)
receive_chunk n pick ([] ∷ ds) h =
    let next = receive_chunk n pick ds h in
    if h.reader_closed && pick (suc (length ds))
    then (record h { queue = [] ∷ ds }, closed)
    else next
receive_chunk n pick ((b ∷ bs) ∷ ds) h =
    if h.reader_closed && pick (suc (length ds))
    then (record h { queue = (b ∷ bs) ∷ ds }, closed)
    else copied n (b ∷ bs) (record h { queue = ds })

-- bufferedPipeConn.Read into n bytes.
unfoldable pub pipe_read : ℕ → (ℕ → Bool) → Half → Half × Got
unfolding receive_chunk
pipe_read n pick h = elim h.buffered [
  | b ∷ bs ↦ copied n (b ∷ bs) h
  | [] ↦ receive_chunk n pick h.queue h
]

pub data Event : Type 0 where
  writes : Bytes → Event
  reads : ℕ → (ℕ → Bool) → Event
  writer_closes reader_closes : Event

-- A direction with all bytes that were written to it, and all that were read.
pub record Traced : Type 0 where
  pub half : Half
  pub taken : Bytes
  pub given : Bytes

abbrev pub taken_by : Written → Bytes → Bytes
taken_by wrote bytes = bytes
taken_by refused bytes = []
taken_by waits bytes = []

abbrev pub given_by : Got → Bytes
given_by (got bytes) = bytes
given_by at_end = []
given_by closed = []
given_by nothing_yet = []

unfoldable pub step : Event → Traced → Traced
unfolding pipe_write pipe_read
step (writes bytes) t =
    let r = pipe_write bytes t.half in
    record t { half = r.0; taken = t.taken ++ taken_by r.1 bytes }
step (reads n pick) t =
    let r = pipe_read n pick t.half in record t { half = r.0; given = t.given ++ given_by r.1 }
step writer_closes t = record t { half = record (t.half) { writer_closed = true } }
step reader_closes t = record t { half = record (t.half) { reader_closed = true } }

unfoldable pub run : List Event → Traced → Traced
unfolding step
run [] t = t
run (e ∷ es) t = run es (step e t)

abbrev pub joined : List Bytes → Bytes
joined [] = []
joined (d ∷ ds) = d ++ joined ds

-- What is in the pipe.
abbrev pub inside : Half → Bytes
inside h = h.buffered ++ joined h.queue
