-- ===== src/Hdc/Sync/Pipe/Order.antt =====
-- The bytes in the pipe keep their order, and a pipe that nobody reads fills up.
use adb_tcp_bridge.Common.{
  ℕ, suc, ◌≡◌, refl, sym, ap, ◌∙◌, Bool, true, false, ◌&&◌, List, [], ◌∷◌, ◌++◌, Bytes, ltb,
  if_elim, length, take, drop, take-append-drop, append_assoc, append-nil,
}
use adb_tcp_bridge.Hdc.Sync.Pipe.{
  pipe_capacity, Half, new_half, Written, pipe_write, Got, no_chunk, copied, receive_chunk,
  pipe_read, Event, writes, reads, writer_closes, reader_closes, Traced, taken_by, given_by, step,
  run, joined, inside,
}

joined-append : (ds : List Bytes) (d : Bytes) → joined (ds ++ (d ∷ [])) ≡ joined ds ++ d
joined-append [] d = append-nil d
joined-append (x ∷ ds) d =
    ap (λ t. x ++ t) (joined-append ds d) ∙ sym (append_assoc x (joined ds) d)

-- Reading gives the front of what is in the pipe.
copied-inside :
    (n : ℕ) (bytes : Bytes) (h : Half)
    → let r = copied n bytes h in given_by r.1 ++ inside r.0 ≡ bytes ++ joined h.queue
copied-inside n bytes h =
    sym (append_assoc (take n bytes) (drop n bytes) (joined h.queue))
    ∙ ap (λ t. t ++ joined h.queue) (take-append-drop n bytes)

no_chunk-given : (a b c : Bool) → given_by (no_chunk a b c) ≡ []
no_chunk-given true true c = refl
no_chunk-given true false c = refl
no_chunk-given false b true = refl
no_chunk-given false b false = refl

receive_chunk-inside :
    (n : ℕ) (pick : ℕ → Bool) (ds : List Bytes) (h : Half)
    → h.buffered ≡ []
    → let r = receive_chunk n pick ds h in given_by r.1 ++ inside r.0 ≡ joined ds
unfolding receive_chunk
receive_chunk-inside n pick [] h e =
    ap (λ t. t ++ (h.buffered ++ []))
      (no_chunk-given h.writer_closed (h.reader_closed && pick 0) h.reader_closed)
    ∙ ap (λ t. t ++ []) e
receive_chunk-inside n pick ([] ∷ ds) h e =
    if_elim (λ (r : Half × Got). given_by r.1 ++ inside r.0 ≡ joined ds)
      (h.reader_closed && pick (suc (length ds))) (λ _. ap (λ t. t ++ joined ds) e)
      (λ _. receive_chunk-inside n pick ds h e)
receive_chunk-inside n pick ((b ∷ bs) ∷ ds) h e =
    if_elim (λ (r : Half × Got). given_by r.1 ++ inside r.0 ≡ (b ∷ bs) ++ joined ds)
      (h.reader_closed && pick (suc (length ds))) (λ _. ap (λ t. t ++ ((b ∷ bs) ++ joined ds)) e)
      (λ _. copied-inside n (b ∷ bs) (record h { queue = ds }))

buffered_read :
    (n : ℕ) (pick : ℕ → Bool) (bytes : Bytes) (h : Half)
    → h.buffered ≡ bytes
    → let r = pipe_read n pick h in given_by r.1 ++ inside r.0 ≡ inside h
unfolding pipe_read
buffered_read n pick [] h e = rw (e, pipe_read) (receive_chunk-inside n pick h.queue h e)
buffered_read n pick (b ∷ bs) h e = rw (e, pipe_read) (copied-inside n (b ∷ bs) h)

write-inside :
    (bytes : Bytes) (h : Half)
    → let r = pipe_write bytes h in inside r.0 ≡ inside h ++ taken_by r.1 bytes
unfolding pipe_write
write-inside bytes h =
    let same : inside h ≡ inside h ++ [] = sym (append-nil (inside h)) in
    if_elim (λ (r : Half × Written). inside r.0 ≡ inside h ++ taken_by r.1 bytes) h.writer_closed
      (λ _. same)
      (λ _.
        if_elim (λ (r : Half × Written). inside r.0 ≡ inside h ++ taken_by r.1 bytes)
          (ltb (length h.queue) pipe_capacity)
          (λ _.
            ap (λ t. h.buffered ++ t) (joined-append h.queue bytes)
            ∙ sym (append_assoc h.buffered (joined h.queue) bytes))
          (λ _. same))

-- The bytes that were written are those that were read and those that are inside.
abbrev pub IsFifo : Traced → Type 0
IsFifo t = t.taken ≡ t.given ++ inside t.half

step-IsFifo : (e : Event) (t : Traced) → IsFifo t → IsFifo (step e t)
unfolding step
step-IsFifo (writes bytes) t v =
    ap (λ s. s ++ taken_by (pipe_write bytes t.half).1 bytes) v
    ∙ append_assoc t.given (inside t.half) (taken_by (pipe_write bytes t.half).1 bytes)
    ∙ ap (λ s. t.given ++ s) (sym (write-inside bytes t.half))
step-IsFifo (reads n pick) t v =
    v
    ∙ ap (λ s. t.given ++ s) (sym (buffered_read n pick t.half.buffered t.half refl))
    ∙ sym (
        append_assoc t.given (given_by (pipe_read n pick t.half).1)
          (inside (pipe_read n pick t.half).0))
step-IsFifo writer_closes t v = v
step-IsFifo reader_closes t v = v

-- Over any writes, reads and closes, in any order, the bytes that the pipe took are, in order, the
-- bytes that reads gave followed by those still inside: none is lost, doubled or moved.
pub run-IsFifo : (es : List Event) (t : Traced) → IsFifo t → IsFifo (run es t)
unfolding run
run-IsFifo [] t v = v
run-IsFifo (e ∷ es) t v = run-IsFifo es (step e t) (step-IsFifo e t v)

-- What can happen while nobody reads and the writer stays open.
abbrev pub IsUnread : Event → Type 0
IsUnread (writes bytes) = Unit {0}
IsUnread (reads n pick) = ⊥
IsUnread writer_closes = ⊥
IsUnread reader_closes = Unit {0}

-- The chunks that were written.
abbrev pub chunks : List Event → List Bytes
chunks [] = []
chunks (writes bytes ∷ es) = bytes ∷ chunks es
chunks (reads n pick ∷ es) = chunks es
chunks (writer_closes ∷ es) = chunks es
chunks (reader_closes ∷ es) = chunks es

abbrev pub new_traced : Traced
new_traced = record { half = new_half; taken = []; given = [] }

abbrev IsOpen : Half → Type 0
IsOpen h = h.writer_closed ≡ false
