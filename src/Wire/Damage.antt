-- ===== src/Wire/Damage.antt =====
-- ReadPacket on packets that were cut short or changed on the way.
use adb_tcp_bridge.Common.{
  ℕ, ◌+◌, ◌-◌, ◌%◌, ◌^◌, ◌≤◌, ◌<◌, ◌≡◌, ap, ◌∙◌, ◌≢◌, inl, inr, [], ◌∷◌, ◌++◌, arith, Bytes, IsByte,
  err, length, take, length-append, ltb, tests, Bool-cases, take-append_ge, length-take,
}
use adb_tcp_bridge.Common.Word.{IsU32}
use adb_tcp_bridge.Stream.{ReadError, eof, unexpected_eof, read_full_short}
use adb_tcp_bridge.Wire.{
  Packet, read, invalid_checksum, header_size, max_payload_size, sum_from, checksum, magic,
  read_body, read_packet, header_bytes,
}
use adb_tcp_bridge.Wire.Header.{IsPacket, checksum-IsU32, length-header_bytes}
use adb_tcp_bridge.Wire.RoundTrip.{wire_bytes, read_packet-wire_bytes, read_payload-append}

-- The plain sum of the bytes; the checksum is this sum modulo 2 ^ 32.
abbrev total : Bytes → ℕ
total [] = 0
total (b ∷ bs) = b + total bs

total-append : (xs ys : Bytes) → total (xs ++ ys) ≡ total xs + total ys
total-append [] ys = omega arith
total-append (x ∷ xs) ys = omega (arith, total-append xs ys)

sum_from-total : (sum : ℕ) (bs : Bytes) → IsU32 sum → sum_from sum bs ≡ (sum + total bs) % 2 ^ 32
unfolding sum_from
sum_from-total sum [] h = omega arith
sum_from-total sum (b ∷ bs) h = omega (arith, sum_from-total ((sum + b) % 2 ^ 32) bs (omega arith))

pub checksum-total : (bs : Bytes) → checksum bs ≡ total bs % 2 ^ 32
unfolding checksum
checksum-total bs = omega (arith, sum_from-total 0 bs (omega arith))

-- Two payloads that differ in one byte have different checksums.
pub checksum_ne :
    (xs ys : Bytes) (b b' : ℕ)
    → IsByte b
    → IsByte b'
    → b ≢ b'
    → checksum (xs ++ (b ∷ ys)) ≢ checksum (xs ++ (b' ∷ ys))
checksum_ne xs ys b b' hb hb' ne =
    rw (checksum-total, checksum-total, total-append, total-append) (omega arith)

length-swap : (xs ys : Bytes) (b b' : ℕ) → length (xs ++ (b ∷ ys)) ≡ length (xs ++ (b' ∷ ys))
length-swap xs ys b b' = omega (arith, length-append xs (b ∷ ys), length-append xs (b' ∷ ys))

read_body_bad_checksum :
    (c a b k : ℕ) (payload rest : Bytes)
    → length payload ≤ max_payload_size
    → k ≢ 0
    → k ≢ checksum payload
    → read_body c a b (length payload) k (magic c) (payload ++ rest) ≡ err (invalid_checksum c)
unfolding read_body
read_body_bad_checksum c a b k payload rest fits nz ne =
    ground (arith, read_payload-append payload rest)

-- If one byte of the payload of a well-formed packet is replaced by another byte, and the
-- checksum in its header is not zero, ReadPacket answers "invalid packet checksum" for that
-- command, whatever follows.
pub read_packet_corrupted :
    (p : Packet) (xs ys rest : Bytes) (b b' : ℕ)
    → IsPacket p
    → p.payload ≡ xs ++ (b ∷ ys)
    → checksum p.payload ≢ 0
    → IsByte b
    → IsByte b'
    → b ≢ b'
    → read_packet (
        header_bytes p.command p.arg0 p.arg1
          (length p.payload)
          (checksum p.payload)
          (magic p.command)
        ++ ((xs ++ (b' ∷ ys)) ++ rest))
      ≡ err (invalid_checksum p.command)
read_packet_corrupted p xs ys rest b b' v e nz hb hb' ne =
    let len : length p.payload ≡ length (xs ++ (b' ∷ ys)) = ap length e ∙ length-swap xs ys b b' in
    let fits : length (xs ++ (b' ∷ ys)) ≤ max_payload_size = omega (arith, v.payload_fits) in
    let differ : checksum p.payload ≢ checksum (xs ++ (b' ∷ ys)) =
      rw e (checksum_ne xs ys b b' hb hb' ne) in
    read_packet-wire_bytes p _ _ v (checksum-IsU32 p.payload)
    ∙ rw len (read_body_bad_checksum _ _ _ _ (xs ++ (b' ∷ ys)) rest fits nz differ)

read_packet_short :
    (s : Bytes) → length s < header_size → (e : ReadError) × (read_packet s ≡ err (read e))
unfolding read_packet
read_packet_short s h = elim (read_full_short header_size s h) [
  | inl (_, e) ↦ (eof, rw e)
  | inr e ↦ (unexpected_eof, rw e)
]

read_body_short :
    (c a b k len : ℕ) (s : Bytes)
    → length s < len
    → len ≤ max_payload_size
    → (e : ReadError) × (read_body c a b len k (magic c) s ≡ err (read e))
unfolding read_body
read_body_short c a b k len s h fits = elim (read_full_short len s h) [
  | inl (_, e) ↦ (eof, ground arith)
  | inr e ↦ (unexpected_eof, ground arith)
]

-- Every proper prefix of the bytes of a well-formed packet, whatever its checksum field, makes
-- ReadPacket fail with the reader's EOF or unexpected EOF: a cut packet is never accepted.
pub read_packet_truncated :
    (p : Packet) (check n : ℕ)
    → IsPacket p
    → IsU32 check
    → n < length (wire_bytes p check)
    → (e : ReadError) × (read_packet (take n (wire_bytes p check)) ≡ err (read e))
read_packet_truncated p check n v k h = elim (Bool-cases (ltb n header_size)) [
  | inl lt ↦ read_packet_short _ (omega (tests, length-take n (wire_bytes p check)))
  | inr ge ↦ behind_header (ground arith)
]
  where
    header : Bytes
    header = header_bytes p.command p.arg0 p.arg1 (length p.payload) check (magic p.command)

    size : length header ≡ header_size
    size = length-header_bytes p.command p.arg0 p.arg1 (length p.payload) check (magic p.command)

    behind_header :
        header_size ≤ n
        → (e : ReadError) × (read_packet (take n (wire_bytes p check)) ≡ err (read e))
    behind_header ge =
        let (e, r) =
          read_body_short p.command p.arg0 p.arg1 check (length p.payload)
            (take (n - length header) p.payload)
            (omega (
              arith,
              size,
              length-append header p.payload,
              length-take (n - length header) p.payload,
            ))
            v.payload_fits in
        (
          e,
          rw (take-append_ge n header p.payload (omega (arith, size)))
              (read_packet-wire_bytes p check _ v k ∙ r),
        )
