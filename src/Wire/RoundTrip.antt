-- ===== src/Wire/RoundTrip.antt =====
-- ReadPacket against WritePacket: the round trip, what a successful read says of the input, and
-- the inputs that are refused because they were cut or changed.
use adb_tcp_bridge.Common.{
  ℕ, zero, suc, ◌+◌, ◌%◌, ◌^◌, ◌≤◌, ◌≡◌, refl, sym, ap, ◌∙◌, ◌⊎◌, inl, inr, true, false, [], ◌∷◌,
  ◌++◌, arith, Bytes, IsByte, ok, bind_succeeds, length, drop, All, append_assoc, append-nil, ◌==◌,
  length-take, All-append_left, All-take, All-drop, length-drop,
}
use adb_tcp_bridge.Common.Word.{IsU32, le_value, le_value-lt}
use adb_tcp_bridge.Stream.{read_full, read_full-append, read_full-splits, write, new_writer}
use adb_tcp_bridge.Wire.{
  Packet, header_size, max_payload_size, checksum, magic, slice, fail_read, read_payload, read_body,
  read_packet, header_bytes, write_packet,
}
use adb_tcp_bridge.Wire.Header.{
  IsPacket, magic-IsU32, checksum-IsU32, read_packet-header, header_bytes-decode,
}

-- The bytes of a packet on the wire, with the checksum field left open.
abbrev pub wire_bytes : Packet → ℕ → Bytes
wire_bytes p check =
    header_bytes p.command p.arg0 p.arg1 (length p.payload) check (magic p.command) ++ p.payload

pub write_packet-written :
    (p : Packet) (n : ℕ)
    → length p.payload ≤ max_payload_size
    → 2 ≤ n
    → ((write_packet p (new_writer n)).0.written ≡ wire_bytes p (checksum p.payload))
      × ((write_packet p (new_writer n)).1 ≡ true)
unfolding write_packet write
write_packet-written p zero fits h = absurd (omega arith)
write_packet-written p (suc zero) fits h = absurd (omega arith)
write_packet-written p (suc (suc n)) fits h =
    let small : length p.payload % 2 ^ 32 ≡ length p.payload = omega arith in
    rw small (elim (payload_cases p.payload) [
      | inl e ↦ rw e (sym (append-nil _), refl)
      | inr e ↦ rw e (refl, refl)
    ])
  where
    payload_cases : (bs : Bytes) → (bs ≡ []) ⊎ ((length bs == 0) ≡ false)
    payload_cases [] = inl refl
    payload_cases (b ∷ bs) = inr (ground arith)

-- A reader at the bytes of a packet goes on with the packet's fields.
pub read_packet-wire_bytes :
    (p : Packet) (check : ℕ) (s : Bytes)
    → IsPacket p
    → IsU32 check
    → read_packet
        (header_bytes p.command p.arg0 p.arg1 (length p.payload) check (magic p.command) ++ s)
      ≡ read_body p.command p.arg0 p.arg1 (length p.payload) check (magic p.command) s
read_packet-wire_bytes p check s v k =
    read_packet-header _ _ _ _ _ _ v.command_fits v.arg0_fits v.arg1_fits
      (omega (arith, v.payload_fits)) k (magic-IsU32 p.command v.command_fits) s

pub read_payload-append : (xs ys : Bytes) → read_payload (length xs) (xs ++ ys) ≡ ok (xs, ys)
unfolding read_payload
read_payload-append [] ys = refl
read_payload-append (x ∷ xs) ys = rw (read_full-append _ (x ∷ xs) ys refl) (ground arith)

-- The body of a packet whose checksum field is zero or right.
read_body_ok :
    (p : Packet) (check : ℕ) (rest : Bytes)
    → length p.payload ≤ max_payload_size
    → (check ≡ 0) ⊎ (check ≡ checksum p.payload)
    → read_body p.command p.arg0 p.arg1
        (length p.payload)
        check
        (magic p.command)
        (p.payload ++ rest)
      ≡ ok (p, rest)
unfolding read_body
read_body_ok p check rest fits c = ground (arith, read_payload-append p.payload rest)

-- For a packet whose fields fit their types and whose payload is at most 16 MiB, WritePacket to a
-- writer that takes two writes reports no error, and ReadPacket on what it wrote, whatever
-- follows, returns the packet and leaves exactly what follows.
pub read_packet-write_packet :
    (p : Packet) (n : ℕ) (rest : Bytes)
    → IsPacket p
    → 2 ≤ n
    → ((write_packet p (new_writer n)).1 ≡ true)
      × (read_packet ((write_packet p (new_writer n)).0.written ++ rest) ≡ ok (p, rest))
read_packet-write_packet p n rest v h =
    let (w, flag) = write_packet-written p n v.payload_fits h in
    let k : IsU32 (checksum p.payload) = checksum-IsU32 p.payload in
    (
      flag,
      rw (w, append_assoc)
          (read_packet-wire_bytes p _ (p.payload ++ rest) v k
            ∙ read_body_ok p _ rest v.payload_fits (inr refl)),
    )

read_payload-splits :
    (n : ℕ) (s xs ys : Bytes) → read_payload n s ≡ ok (xs, ys) → (s ≡ xs ++ ys) × (length xs ≡ n)
unfolding read_payload
read_payload-splits n s xs ys h = ground (arith, fail_read-splits)
  where
    fail_read-splits : fail_read (read_full n s) ≡ ok (xs, ys) → (s ≡ xs ++ ys) × (length xs ≡ n)
    fail_read-splits e = ground (arith, read_full-splits n s xs ys)

-- What a successful read_body says of its arguments.
abbrev Body : ℕ → ℕ → ℕ → ℕ → ℕ → ℕ → Bytes → Packet → Bytes → Type 0
Body c a b l k m s p rest =
    (p.command ≡ c)
    × (p.arg0 ≡ a)
    × (p.arg1 ≡ b)
    × (length p.payload ≡ l)
    × (l ≤ max_payload_size)
    × (m ≡ magic c)
    × ((k ≡ 0) ⊎ (k ≡ checksum p.payload))
    × (s ≡ p.payload ++ rest)

read_body_sound :
    (c a b l k m : ℕ) (s : Bytes) (p : Packet) (rest : Bytes)
    → read_body c a b l k m s ≡ ok (p, rest)
    → Body c a b l k m s p rest
unfolding read_body
read_body_sound c a b l k m s p rest h = ground (arith, read_payload-splits l s p.payload rest)

read_packet-splits :
    (s : Bytes) (p : Packet) (rest : Bytes)
    → read_packet s ≡ ok (p, rest)
    → (header : Bytes) × (body : Bytes) × (s ≡ header ++ body)
      × (length header ≡ header_size)
      × (read_body
            (le_value (slice 0 4 header))
            (le_value (slice 4 4 header))
            (le_value (slice 8 4 header))
            (le_value (slice 12 4 header))
            (le_value (slice 16 4 header))
            (le_value (slice 20 4 header))
            body
          ≡ ok (p, rest))
unfolding read_packet
read_packet-splits s p rest h =
    let ((header, body), (e, r)) = bind_succeeds _ (fail_read (read_full header_size s)) h in
    let (t, n) = read_full-splits header_size s header body (ground arith) in
    (header, body, t, n, r)

le_value_field :
    (i : ℕ) (h : Bytes) → i + 4 ≤ length h → All IsByte h → IsU32 (le_value (slice i 4 h))
le_value_field i h fits by =
    le_value-lt 4 (slice i 4 h) (omega (arith, length-take 4 (drop i h), length-drop i h))
      (All-take IsByte 4 (drop i h) (All-drop IsByte i h by))

-- If ReadPacket succeeds on a sequence of bytes, then the packet's fields fit their types, its
-- payload is at most 16 MiB, and the input is the packet's own bytes followed by what is left,
-- with a checksum field that is zero or the payload's checksum.
pub read_packet_sound :
    (s : Bytes) (p : Packet) (rest : Bytes)
    → All IsByte s
    → read_packet s ≡ ok (p, rest)
    → IsPacket p
      × ((check : ℕ) × ((check ≡ 0) ⊎ (check ≡ checksum p.payload))
          × (s ≡ wire_bytes p check ++ rest))
read_packet_sound s p rest by h =
    let (header, body, split, n, r) = read_packet-splits s p rest h in
    let (ec, ea, eb, el, fits, em, ek, es) = read_body_sound _ _ _ _ _ _ body p rest r in
    let hby : All IsByte header = All-append_left IsByte header body (rw split at by) in
    let d = header_bytes-decode header n hby in
    (
      record {
        command_fits = rw ec (le_value_field 0 header (omega arith) hby);
        arg0_fits = rw ea (le_value_field 4 header (omega arith) hby);
        arg1_fits = rw eb (le_value_field 8 header (omega arith) hby);
        payload_fits = omega arith;
      },
      (
        le_value (slice 16 4 header),
        ek,
        rw (split, es, append_assoc)
            (ap (λ t. t ++ (p.payload ++ rest)) (sym d ∙ cc (ec, ea, eb, el, em))),
      ),
    )
