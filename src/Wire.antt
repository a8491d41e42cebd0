-- ===== src/Wire.antt =====
-- internal/adbwire/packet.go: the ADB packet header, and reading and writing packets.
pub mod Header
pub mod RoundTrip
pub mod Damage
use adb_tcp_bridge.Common.{
  ℕ, ◌+◌, ◌-◌, ◌%◌, ◌^◌, ◌≡◌, refl, Bool, true, false, not, ◌&&◌, [], ◌∷◌, ◌++◌, bit_xor, Bytes,
  Result, ok, err, ◌>>=◌, ltb, ◌==◌, if◌then◌else◌, length, take, drop,
}
use adb_tcp_bridge.Common.Word.{le_bytes, le_value}
use adb_tcp_bridge.Stream.{ReadError, read_full, Writer, write, then_write}

abbrev pub header_size : ℕ
header_size = 24

-- 16 << 20
abbrev pub max_payload_size : ℕ
max_payload_size = 0x100_0000

abbrev pub cmd_sync : ℕ
cmd_sync = 0x434e5953

abbrev pub cmd_cnxn : ℕ
cmd_cnxn = 0x4e584e43

abbrev pub cmd_open : ℕ
cmd_open = 0x4e45504f

abbrev pub cmd_okay : ℕ
cmd_okay = 0x59414b4f

abbrev pub cmd_clse : ℕ
cmd_clse = 0x45534c43

abbrev pub cmd_wrte : ℕ
cmd_wrte = 0x45545257

abbrev pub cmd_auth : ℕ
cmd_auth = 0x48545541

abbrev pub cmd_stls : ℕ
cmd_stls = 0x534c5453

abbrev pub auth_token : ℕ
auth_token = 1

abbrev pub auth_signature : ℕ
auth_signature = 2

abbrev pub auth_rsa_public_key : ℕ
auth_rsa_public_key = 3

pub record Packet : Type 0 where
  pub command : ℕ
  pub arg0 : ℕ
  pub arg1 : ℕ
  pub payload : Bytes

-- The errors of ReadPacket: the reader's, and the three of its own.
pub data Error : Type 0 where
  read : ReadError → Error
  invalid_magic : ℕ → Error
  payload_too_large : ℕ → Error
  invalid_checksum : ℕ → Error

-- `sum += uint32(b)` from the first byte to the last.
sum_from : ℕ → Bytes → ℕ
sum_from sum [] = sum
sum_from sum (b ∷ bs) = sum_from ((sum + b) % 2 ^ 32) bs

unfoldable pub checksum : Bytes → ℕ
unfolding sum_from
checksum payload = sum_from 0 payload

unfoldable pub magic : ℕ → ℕ
magic command = bit_xor command 0xffffffff

-- header[lo : lo + n]
abbrev pub slice : ℕ → ℕ → Bytes → Bytes
slice lo n s = take n (drop lo s)

abbrev fail_read {ℓ} : {A : Type ℓ} → Result ReadError A → Result Error A
fail_read (ok a) = ok a
fail_read (err e) = err (read e)

-- `if length > 0 { io.ReadFull(r, payload) }`
unfoldable pub read_payload : ℕ → Bytes → Result Error (Bytes × Bytes)
read_payload n s = if ltb 0 n then fail_read (read_full n s) else ok ([], s)

-- ReadPacket after the header: the packet, and what the reader still holds.
unfoldable pub read_body : ℕ → ℕ → ℕ → ℕ → ℕ → ℕ → Bytes → Result Error (Packet × Bytes)
unfolding read_payload
read_body command arg0 arg1 len check mag s =
    if not (mag == magic command)
    then err (invalid_magic command)
    else if ltb max_payload_size len
    then err (payload_too_large len)
    else do
      (payload, rest) ← read_payload len s
      if not (check == 0) && not (check == checksum payload)
          then err (invalid_checksum command)
          else ok (record { command = command; arg0 = arg0; arg1 = arg1; payload = payload }, rest)

unfoldable pub read_packet : Bytes → Result Error (Packet × Bytes)
unfolding read_body
read_packet s = do
  (header, rest) ← fail_read (read_full header_size s)
  read_body (le_value (slice 0 4 header)) (le_value (slice 4 4 header))
      (le_value (slice 8 4 header)) (le_value (slice 12 4 header)) (le_value (slice 16 4 header))
      (le_value (slice 20 4 header)) rest

-- The 24 bytes of a header, from its six fields.
unfoldable pub header_bytes : ℕ → ℕ → ℕ → ℕ → ℕ → ℕ → Bytes
header_bytes command arg0 arg1 len check mag =
    le_bytes 4 command
    ++ (le_bytes 4 arg0
        ++ (le_bytes 4 arg1 ++ (le_bytes 4 len ++ (le_bytes 4 check ++ le_bytes 4 mag))))

-- `uint32(len(packet.Payload))` wraps.
unfoldable pub write_packet : Packet → Writer → Writer × Bool
write_packet p w =
    let header =
      header_bytes p.command p.arg0 p.arg1 (length p.payload % 2 ^ 32) (checksum p.payload)
        (magic p.command) in
    then_write (write header w)
      λ w'. if length p.payload == 0 then (w', true) else write p.payload w'
