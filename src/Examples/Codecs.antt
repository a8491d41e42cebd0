-- ===== src/Examples/Codecs.antt =====
-- Packets on the wire.
use adb_tcp_bridge.Common.{
  ℕ, ◌≡◌, ◌≢◌, ◌⊎◌, refl, true, [], ◌∷◌, ◌++◌, arith, Bytes, IsByte, codes, ok, err, All,
}
use adb_tcp_bridge.Common.Word.{le_value}
use adb_tcp_bridge.Stream.{new_writer, read_full}
use adb_tcp_bridge.Wire.{
  Packet, cmd_wrte, invalid_checksum, checksum, magic, read_packet, header_bytes, write_packet,
}
use adb_tcp_bridge.Wire.Header.{IsPacket}
use adb_tcp_bridge.Wire.RoundTrip.{wire_bytes, read_packet-write_packet, read_packet_sound}
use adb_tcp_bridge.Wire.Damage.{read_packet_corrupted}

-- A WRTE with the payload "hi".
abbrev greeting : Packet
greeting = record { command = cmd_wrte; arg0 = 1; arg1 = 2; payload = codes "hi" }

greeting-IsPacket : IsPacket greeting
greeting-IsPacket = record {
  command_fits = omega arith;
  arg0_fits = omega arith;
  arg1_fits = omega arith;
  payload_fits = omega arith;
}

read_packet-write_packet_example :
    ((write_packet greeting (new_writer 2)).1 ≡ true)
    × (read_packet ((write_packet greeting (new_writer 2)).0.written ++ codes "more")
        ≡ ok (greeting, codes "more"))
read_packet-write_packet_example =
    read_packet-write_packet greeting 2 (codes "more") greeting-IsPacket (omega arith)

-- An OKAY of the service 1 to the service 2, without a payload, and a byte that follows.
abbrev okay : Packet
okay = record { command = 0x59414b4f; arg0 = 1; arg1 = 2; payload = [] }

abbrev okay_input : Bytes
okay_input =
    0x4f ∷ 0x4b ∷ 0x41 ∷ 0x59 ∷ 1 ∷ 0 ∷ 0 ∷ 0 ∷ 2 ∷ 0 ∷ 0 ∷ 0 ∷ 0 ∷ 0 ∷ 0 ∷ 0 ∷ 0 ∷ 0 ∷ 0 ∷ 0 ∷ 0xb0
    ∷ 0xb4 ∷ 0xbe ∷ 0xa6 ∷ 7 ∷ []

okay_bytes : All IsByte okay_input
okay_bytes = ground arith

okay_read : read_packet okay_input ≡ ok (okay, 7 ∷ [])
unfolding read_packet read_full le_value magic
okay_read = refl

read_packet_sound_example :
    IsPacket okay
    × ((check : ℕ) × ((check ≡ 0) ⊎ (check ≡ checksum okay.payload))
        × (okay_input ≡ wire_bytes okay check ++ (7 ∷ [])))
read_packet_sound_example = read_packet_sound okay_input okay (7 ∷ []) okay_bytes okay_read

checksum_nonzero : checksum greeting.payload ≢ 0
unfolding checksum
checksum_nonzero e = omega arith

read_packet_corrupted_example :
    read_packet (
      header_bytes cmd_wrte 1 2 2 (checksum (codes "hi")) (magic cmd_wrte)
      ++ ((codes "h" ++ (b'o' ∷ [])) ++ codes "more"))
    ≡ err (invalid_checksum cmd_wrte)
read_packet_corrupted_example =
    read_packet_corrupted greeting (codes "h") [] (codes "more") b'i' b'o' greeting-IsPacket refl
      checksum_nonzero (omega arith) (omega arith) (omega arith)
