-- ===== src/Hdc/Transfer.antt =====
-- internal/hdcserver/file_transfer.go: the messages of a file transfer, in protobuf's encoding.
-- The loop of appendProtoVarint runs on fuel: a uint64 needs at most nine rounds. The functions that
-- append to a slice give what they append.
pub mod Varint
pub mod Payload
pub mod Push
pub mod Sending
pub mod Closing
use adb_tcp_bridge.Common.{
  ℕ, zero, suc, ◌+◌, ◌-◌, ◌*◌, ◌/◌, ◌%◌, ◌^◌, bit_or, Bool, true, false, Option, none, some, [],
  ◌∷◌, ◌++◌, Bytes, ltb, if◌then◌else◌, length, take, replicate,
}

-- hdcFileHeaderSize
abbrev pub file_header_size : ℕ
file_header_size = 64

-- `for value >= 0x80 { out = append(out, byte(value)|0x80); value >>= 7 }` for at most k rounds, and
-- the last byte.
unfoldable pub proto_bytes : ℕ → ℕ → Bytes
proto_bytes zero value = (value % 256) ∷ []
proto_bytes (suc k) value =
    let rest = proto_bytes k (value / 128) in
    if ltb value 0x80 then (value % 256) ∷ [] else bit_or (value % 256) 0x80 ∷ rest

-- appendProtoVarint
abbrev pub proto_varint : ℕ → Bytes
proto_varint value = proto_bytes 9 value

-- appendProtoVarintField; `fieldNumber<<3`
unfoldable pub proto_varint_field : ℕ → ℕ → Bytes
proto_varint_field field_number value = proto_varint (field_number * 8) ++ proto_varint value

-- appendProtoBytesField; `fieldNumber<<3|2`
unfoldable pub proto_bytes_field : ℕ → Bytes → Bytes
proto_bytes_field field_number value =
    proto_varint (field_number * 8 + 2) ++ (proto_varint (length value) ++ value)

unfoldable pub encode_transfer_config : ℕ → Bytes → Bytes → ℕ → Bytes
unfolding proto_varint_field proto_bytes_field
encode_transfer_config file_size remote optional_name mtime =
    proto_varint_field 1 file_size
    ++ (proto_varint_field 2 mtime
        ++ (proto_varint_field 3 mtime
            ++ (proto_bytes_field 4 []
                ++ (proto_bytes_field 5 remote
                    ++ (proto_bytes_field 6 optional_name
                        ++ (proto_varint_field 7 0
                            ++ (proto_varint_field 8 0
                                ++ (proto_varint_field 9 0
                                    ++ (proto_bytes_field 10 []
                                        ++ (proto_bytes_field 11 []
                                            ++ (proto_bytes_field 12 []
                                                ++ proto_bytes_field 13 [])))))))))))

-- The fields in front of a chunk.
unfoldable pub payload_head : ℕ → ℕ → Bytes
unfolding proto_varint_field
payload_head index size =
    proto_varint_field 1 index
    ++ (proto_varint_field 2 0 ++ (proto_varint_field 3 size ++ proto_varint_field 4 size))

-- copy into a header of 64 zero bytes cuts a head that is longer.
unfoldable pub encode_transfer_payload : ℕ → Bytes → Bytes
unfolding payload_head
encode_transfer_payload index bytes =
    let head = payload_head index (length bytes) in
    take file_header_size head ++ (replicate (file_header_size - length head) 0 ++ bytes)
