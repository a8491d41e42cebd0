-- ===== src/Wire/Header.antt =====
-- The fields of a packet header, and the well-formed packets.
use adb_tcp_bridge.Common.{
  ℕ, ◌+◌, ◌-◌, ◌%◌, ◌^◌, ◌≤◌, ◌≡◌, refl, [], ◌∷◌, ◌++◌, arith, Bytes, IsByte, length, drop, All,
  All-take, All-drop, length-take, length-drop, take-append-drop, drop-drop, take_all,
}
use adb_tcp_bridge.Common.Bits.{bit_xor_ones}
use adb_tcp_bridge.Common.Word.{le_bytes, le_value, IsU32, le_bytes-le_value}
use adb_tcp_bridge.Stream.{read_full-append}
use adb_tcp_bridge.Wire.{
  Packet, header_size, max_payload_size, sum_from, checksum, magic, slice, read_body, read_packet,
  header_bytes,
}

-- A packet whose fields fit their types and whose payload a reader accepts.
pub record IsPacket (p : Packet) : Type 0 where
  pub command_fits : IsU32 p.command
  pub arg0_fits : IsU32 p.arg0
  pub arg1_fits : IsU32 p.arg1
  pub payload_fits : length p.payload ≤ max_payload_size

pub magic_lem : (c : ℕ) → IsU32 c → magic c ≡ 2 ^ 32 - 1 - c
unfolding magic
magic_lem c h = bit_xor_ones 32 c h

pub magic-IsU32 : (c : ℕ) → IsU32 c → IsU32 (magic c)
magic-IsU32 c h = omega (arith, magic_lem c h)

sum_from-IsU32 : (sum : ℕ) (bs : Bytes) → IsU32 sum → IsU32 (sum_from sum bs)
unfolding sum_from
sum_from-IsU32 sum [] h = h
sum_from-IsU32 sum (b ∷ bs) h = sum_from-IsU32 ((sum + b) % 2 ^ 32) bs (omega arith)

pub checksum-IsU32 : (bs : Bytes) → IsU32 (checksum bs)
unfolding checksum
checksum-IsU32 bs = sum_from-IsU32 0 bs (omega arith)

pub length-header_bytes : (c a b l k m : ℕ) → length (header_bytes c a b l k m) ≡ header_size
unfolding header_bytes le_bytes
length-header_bytes c a b l k m = refl

module _ (c a b l k m : ℕ) where
  abbrev whole : Bytes
  whole = header_bytes c a b l k m

  module _ (hc : IsU32 c) (ha : IsU32 a) (hb : IsU32 b) (hl : IsU32 l) (hk : IsU32 k)
      (hm : IsU32 m) where
    -- Each four-byte field of a header decodes to the value that was put there.
    header_fields :
        (le_value (slice 0 4 whole) ≡ c)
        × (le_value (slice 4 4 whole) ≡ a)
        × (le_value (slice 8 4 whole) ≡ b)
        × (le_value (slice 12 4 whole) ≡ l)
        × (le_value (slice 16 4 whole) ≡ k)
        × (le_value (slice 20 4 whole) ≡ m)
    unfolding header_bytes le_bytes le_value
    header_fields = (omega arith, omega arith, omega arith, omega arith, omega arith, omega arith)

    -- A reader that meets a header goes on with its fields.
    pub read_packet-header : (s : Bytes) → read_packet (whole ++ s) ≡ read_body c a b l k m s
    unfolding read_packet
    read_packet-header s =
        rw (read_full-append header_size whole s (length-header_bytes c a b l k m))
          (let (f0, f4, f8, f12, f16, f20) = header_fields in cc (f0, f4, f8, f12, f16, f20))

-- Any 24 bytes are the header of the six fields that they decode to.
pub header_bytes-decode :
    (h : Bytes)
    → length h ≡ header_size
    → All IsByte h
    → header_bytes
        (le_value (slice 0 4 h))
        (le_value (slice 4 4 h))
        (le_value (slice 8 4 h))
        (le_value (slice 12 4 h))
        (le_value (slice 16 4 h))
        (le_value (slice 20 4 h))
      ≡ h
unfolding header_bytes
header_bytes-decode h n by =
    rw
      (
        field 0 (omega arith),
        field 4 (omega arith),
        field 8 (omega arith),
        field 12 (omega arith),
        field 16 (omega arith),
        field 20 (omega arith),
      )
      pieces
  where
    field : (i : ℕ) → i + 4 ≤ header_size → le_bytes 4 (le_value (slice i 4 h)) ≡ slice i 4 h
    field i fits =
        le_bytes-le_value 4 (slice i 4 h) (omega (arith, length-take 4 (drop i h), length-drop i h))
          (All-take IsByte 4 (drop i h) (All-drop IsByte i h by))

    front : (i : ℕ) → slice i 4 h ++ drop (i + 4) h ≡ drop i h
    front i = rw (← drop-drop i 4 h) (take-append-drop 4 (drop i h))

    pieces :
        slice 0 4 h
          ++ (slice 4 4 h ++ (slice 8 4 h ++ (slice 12 4 h ++ (slice 16 4 h ++ slice 20 4 h))))
        ≡ h
    pieces = cc (
      take_all 4 (drop 20 h) (omega (arith, length-drop 20 h)),
      front 0,
      front 4,
      front 8,
      front 12,
      front 16,
    )
