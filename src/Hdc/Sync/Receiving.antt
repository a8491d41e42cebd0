-- ===== src/Hdc/Sync/Receiving.antt =====
-- An upload reassembles the file that was sent.
use adb_tcp_bridge.Common.{
  ℕ, zero, suc, ◌-◌, ◌≤◌, ◌<◌, ◌≡◌, ◌≢◌, refl, sym, ap, ◌∙◌, inl, inr, Bool, true, List, [], ◌∷◌,
  ◌++◌, arith, Bytes, codes, bytes_eq, ok, if◌then◌else◌, if_elim, length, length-append,
  take-append, drop-append, append_assoc, append-nil, All, Result-cases,
}
use adb_tcp_bridge.Common.Word.{IsU32, le_bytes, length-le_bytes, le_value-le_bytes}
use adb_tcp_bridge.Stream.{read_full, read_full-append, read_full-splits, Writer, write, new_writer}
use adb_tcp_bridge.Hdc.Sync.{
  max_sync_payload_size, read_request_payload, read_sync_request, Upload, push, file_failed,
  out_of_fuel, receive, receive_upload,
}

-- A request on the wire.
abbrev pub sync_header : Bytes → ℕ → Bytes
sync_header id n = id ++ le_bytes 4 n

abbrev pub data_bytes : Bytes → Bytes
data_bytes chunk = sync_header (codes "DATA") (length chunk) ++ chunk

abbrev pub all_data : List Bytes → Bytes
all_data [] = []
all_data (c ∷ cs) = data_bytes c ++ all_data cs

abbrev pub contents : List Bytes → Bytes
contents [] = []
contents (c ∷ cs) = c ++ contents cs

abbrev pub FitsRequest : Bytes → Type 0
FitsRequest chunk = length chunk ≤ max_sync_payload_size

read_header :
    (id : Bytes) (n : ℕ) (s : Bytes)
    → length id ≡ 4
    → IsU32 n
    → read_sync_request (sync_header id n ++ s) ≡ read_request_payload id n s
unfolding read_sync_request
read_header id n s i h =
    let eight : length (sync_header id n) ≡ 8 =
      omega (arith, length-append id (le_bytes 4 n), length-le_bytes 4 n) in
    rw
      (
        read_sync_request,
        read_full-append 8 (sync_header id n) s eight,
        take-append 4 id (le_bytes 4 n) i,
        drop-append 4 id (le_bytes 4 n) i,
        le_value-le_bytes 4 n h,
      )
      refl

read_data :
    (chunk s : Bytes)
    → FitsRequest chunk
    → read_sync_request (data_bytes chunk ++ s) ≡ ok ((codes "DATA", chunk), s)
read_data chunk s h =
    ap read_sync_request (append_assoc (sync_header (codes "DATA") (length chunk)) chunk s)
    ∙ read_header (codes "DATA") (length chunk) (chunk ++ s) refl (omega arith)
    ∙ payload_read chunk h
  where
    payload_read :
        (c : Bytes)
        → FitsRequest c
        → read_request_payload (codes "DATA") (length c) (c ++ s) ≡ ok ((codes "DATA", c), s)
    payload_read [] h = unfold read_request_payload bytes_eq in refl
    payload_read (x ∷ xs) h =
        unfold read_request_payload bytes_eq in
        rw (read_full-append (length (x ∷ xs)) (x ∷ xs) s refl) (ground arith)

receive_data :
    (k : ℕ) (chunk s : Bytes) (file : Writer)
    → FitsRequest chunk
    → receive (suc k) (data_bytes chunk ++ s) file
      ≡ (if (write chunk file).1 then receive k s (write chunk file).0 else (file_failed, s))
receive_data k chunk s file h = unfold receive bytes_eq in rw (receive, read_data chunk s h) refl

receive_done :
    (k n : ℕ) (s : Bytes) (file : Writer)
    → IsU32 n
    → receive (suc k) (sync_header (codes "DONE") n ++ s) file ≡ (push file.written, s)
receive_done k n s file h =
    let e : read_sync_request (sync_header (codes "DONE") n ++ s) ≡ ok ((codes "DONE", []), s) =
      read_header (codes "DONE") n s refl h ∙ (unfold read_request_payload bytes_eq in refl) in
    unfold receive bytes_eq in rw (receive, e) refl

write_once :
    (chunk o : Bytes) (n : ℕ)
    → 1 ≤ n
    → write chunk (record { written = o; budget = n })
      ≡ (record { written = o ++ chunk; budget = n - 1 }, true)
unfolding write
write_once chunk o zero h = absurd (omega arith)
write_once chunk o (suc n) h = ground arith

receive-chunks :
    (chunks : List Bytes) (mtime k : ℕ) (rest o : Bytes) (n : ℕ)
    → All FitsRequest chunks
    → IsU32 mtime
    → length chunks < k
    → length chunks ≤ n
    → receive k
        (all_data chunks ++ (sync_header (codes "DONE") mtime ++ rest))
        (record { written = o; budget = n })
      ≡ (push (o ++ contents chunks), rest)
receive-chunks chunks mtime zero rest o n a m f b = absurd (omega arith)
receive-chunks [] mtime (suc k) rest o n a m f b =
    receive_done k mtime rest _ m ∙ ap (λ c. (push c, rest)) (sym (append-nil o))
receive-chunks (c ∷ cs) mtime (suc k) rest o n a m f b =
    let more : Bytes = all_data cs ++ (sync_header (codes "DONE") mtime ++ rest) in
    let file : Writer = record { written = o; budget = n } in
    ap (λ s. receive (suc k) s file) (append_assoc (data_bytes c) (all_data cs) _)
    ∙ receive_data k c more file a.0
    ∙ ap (λ (r : Writer × Bool). if r.1 then receive k more r.0 else (file_failed, more))
        (write_once c o n (omega arith))
    ∙ receive-chunks cs mtime k rest (o ++ c) (n - 1) a.1 m (omega arith) (omega arith)
    ∙ ap (λ t. (push t, rest)) (append_assoc o c (contents cs))

length-all_data : (chunks : List Bytes) → length chunks ≤ length (all_data chunks)
length-all_data [] = omega arith
length-all_data (c ∷ cs) = omega (
  arith,
  length-all_data cs,
  length-append (data_bytes c) (all_data cs),
  length-append (sync_header (codes "DATA") (length c)) c,
  length-append (codes "DATA") (le_bytes 4 (length c)),
)

-- If a client sends a file as DATA requests of at most 16 MiB each and then a DONE with any time, and
-- the temporary file takes them all, the loop of handleSend goes on to push a file whose contents are
-- those of the requests, in order, and has read nothing beyond the DONE.
pub receive_upload-chunks :
    (chunks : List Bytes) (mtime : ℕ) (rest : Bytes) (n : ℕ)
    → All FitsRequest chunks
    → IsU32 mtime
    → length chunks ≤ n
    → receive_upload (all_data chunks ++ (sync_header (codes "DONE") mtime ++ rest)) (new_writer n)
      ≡ (push (contents chunks), rest)
receive_upload-chunks chunks mtime rest n a m b =
    receive-chunks chunks mtime _ rest [] n a m
      (omega (
        arith,
        length-all_data chunks,
        length-append (all_data chunks) (sync_header (codes "DONE") mtime ++ rest),
      ))
      b

read_payload-shorter :
    (id : Bytes) (n : ℕ) (s rest : Bytes) (r : Bytes × Bytes)
    → read_request_payload id n s ≡ ok (r, rest)
    → length rest ≤ length s
unfolding read_request_payload
read_payload-shorter id n s rest r e = elim (Result-cases (read_full n s)) [
  | inl ((xs, ys), q) ↦
      let (split, _) = read_full-splits n s xs ys q in
      ground (arith, e, q, ap length split, length-append xs ys)
  | inr (x, q) ↦ ground (arith, e, q)
]

read_sync_request-shorter :
    (s rest : Bytes) (r : Bytes × Bytes)
    → read_sync_request s ≡ ok (r, rest)
    → length rest < length s
read_sync_request-shorter s rest r e =
    unfold read_sync_request in
    elim (Result-cases (read_full 8 s)) [
      | inl ((header, body), q) ↦
          let (split, n) = read_full-splits 8 s header body q in
          let h = read_payload-shorter _ _ body rest r (rw (q, read_sync_request) at e) in
          omega (arith, h, ap length split, length-append header body, n)
      | inr (x, q) ↦ absurd (let z = (rw (q, read_sync_request) at e) in cc z)
    ]

receive_ends :
    (k : ℕ) (s : Bytes) (file : Writer) → length s < k → (receive k s file).0 ≢ out_of_fuel
unfolding receive
receive_ends zero s file h = absurd (omega arith)
receive_ends (suc k) s file h = elim (Result-cases (read_sync_request s)) [
  | inl (((id, payload), rest), e) ↦
      let ih =
        receive_ends k rest (write payload file).0
          (omega (arith, read_sync_request-shorter s rest (id, payload) e)) in
      rw (e, receive)
        (if_elim (λ (r : Upload × Bytes). r.0 ≢ out_of_fuel) (bytes_eq id (codes "DATA"))
          (λ _.
            if_elim (λ (r : Upload × Bytes). r.0 ≢ out_of_fuel) (write payload file).1 (λ _. ih)
              (λ _. λ z. cc z))
          (λ _.
            if_elim (λ (r : Upload × Bytes). r.0 ≢ out_of_fuel) (bytes_eq id (codes "DONE"))
              (λ _. λ z. cc z) (λ _. λ z. cc z)))
  | inr (x, e) ↦ rw (e, receive) (λ z. cc z)
]

-- On any bytes from the client the loop of handleSend ends for a reason of its own: one round for each
-- byte, and one more, are enough.
pub receive_upload_ends : (s : Bytes) (file : Writer) → (receive_upload s file).0 ≢ out_of_fuel
receive_upload_ends s file = receive_ends (suc (length s)) s file (omega arith)
