-- ===== src/Hdc/Transfer/Payload.antt =====
-- The header of a chunk has room for its fields.
use adb_tcp_bridge.Common.{
  ℕ, zero, suc, ◌+◌, ◌-◌, ◌*◌, ◌^◌, ◌≤◌, ◌<◌, ◌≡◌, refl, sym, ap, ◌∙◌, Option, none, some, List, [],
  ◌∷◌, ◌++◌, arith, Bytes, length, drop, replicate, length-append, length-replicate, take_all,
  drop-append, append_assoc,
}
use adb_tcp_bridge.Hdc.Transfer.{
  proto_bytes, proto_varint, proto_varint_field, payload_head, encode_transfer_payload,
  file_header_size,
}
use adb_tcp_bridge.Hdc.Transfer.Varint.{varint_value, varint_value-proto_varint}

-- The tags and values of n varint fields at the front of the bytes.
unfoldable pub read_fields : ℕ → Bytes → Option (List (ℕ × ℕ))
read_fields zero bs = some []
read_fields (suc n) bs = elim (varint_value bs) [
  | none ↦ none
  | some (tag, bs₁) ↦ elim (varint_value bs₁) [
    | none ↦ none
    | some (value, bs₂) ↦ elim (read_fields n bs₂) [
      | none ↦ none
      | some fields ↦ some ((tag, value) ∷ fields)
    ]
  ]
]

read_field :
    (number value n : ℕ) (rest : Bytes) (fields : List (ℕ × ℕ))
    → number < 16
    → value < 2 ^ 64
    → read_fields n rest ≡ some fields
    → read_fields (suc n) (proto_varint_field number value ++ rest)
      ≡ some ((number * 8, value) ∷ fields)
unfolding read_fields proto_varint_field
read_field number value n rest fields a b e =
    let (f, _) =
      varint_value-proto_varint (number * 8) (proto_varint value ++ rest) (omega arith) in
    let (g, _) = varint_value-proto_varint value rest b in
    rw (append_assoc, read_fields, f) (rw g (rw e refl))

length-proto_varint_field :
    (number value : ℕ)
    → number < 16
    → value < 2 ^ 64
    → length (proto_varint_field number value) ≤ 11
unfolding proto_varint_field
length-proto_varint_field number value a b =
    let one : length (proto_varint (number * 8)) ≡ 1 = unfold proto_bytes in ground arith in
    let (_, ten) = varint_value-proto_varint value [] b in
    omega (arith, length-append (proto_varint (number * 8)) (proto_varint value))

length-payload_head :
    (index size : ℕ)
    → index < 2 ^ 64
    → size < 2 ^ 64
    → length (payload_head index size) ≤ file_header_size
unfolding payload_head
length-payload_head index size i s =
    let f1 = proto_varint_field 1 index in
    let f2 = proto_varint_field 2 0 in
    let f3 = proto_varint_field 3 size in
    let f4 = proto_varint_field 4 size in
    omega (
      arith,
      length-append f1 (f2 ++ (f3 ++ f4)),
      length-append f2 (f3 ++ f4),
      length-append f3 f4,
      length-proto_varint_field 1 index (omega arith) i,
      length-proto_varint_field 2 0 (omega arith) (omega arith),
      length-proto_varint_field 3 size (omega arith) s,
      length-proto_varint_field 4 size (omega arith) s,
    )

append_four :
    (a b c d rest : Bytes) → (a ++ (b ++ (c ++ d))) ++ rest ≡ a ++ (b ++ (c ++ (d ++ rest)))
append_four a b c d rest =
    append_assoc a (b ++ (c ++ d)) rest
    ∙ ap (λ t. a ++ t) (append_assoc b (c ++ d) rest ∙ ap (λ t. b ++ t) (append_assoc c d rest))

read_fields-payload_head :
    (index size : ℕ) (rest : Bytes)
    → index < 2 ^ 64
    → size < 2 ^ 64
    → read_fields 4 (payload_head index size ++ rest)
      ≡ some ((8, index) ∷ (16, 0) ∷ (24, size) ∷ (32, size) ∷ [])
unfolding payload_head
read_fields-payload_head index size rest i s =
    ap (read_fields 4) (
      append_four (proto_varint_field 1 index) (proto_varint_field 2 0) (proto_varint_field 3 size)
        (proto_varint_field 4 size) rest)
    ∙ read_field 1 index 3 _ _ (omega arith) i (
        read_field 2 0 2 _ _ (omega arith) (omega arith) (
          read_field 3 size 1 _ _ (omega arith) s
            (read_field 4 size 0 rest [] (omega arith) s (unfold read_fields in refl))))

-- A chunk at a position below 2 ^ 64 and of a length below 2 ^ 64 is sent as a header of exactly 64
-- bytes and the chunk itself; the header is never cut, and it begins with protobuf's fields 1 to 4:
-- the position, 0, and the length twice.
pub encode_transfer_payload_lem :
    (index : ℕ) (bytes : Bytes)
    → index < 2 ^ 64
    → length bytes < 2 ^ 64
    → (length (encode_transfer_payload index bytes) ≡ file_header_size + length bytes)
      × (drop file_header_size (encode_transfer_payload index bytes) ≡ bytes)
      × (read_fields 4 (encode_transfer_payload index bytes)
          ≡ some ((8, index) ∷ (16, 0) ∷ (24, length bytes) ∷ (32, length bytes) ∷ []))
unfolding encode_transfer_payload
encode_transfer_payload_lem index bytes i s =
    let head = payload_head index (length bytes) in
    let fits : length head ≤ file_header_size = length-payload_head index (length bytes) i s in
    let zeros = replicate {A = ℕ} (file_header_size - length head) 0 in
    let full : length (head ++ zeros) ≡ file_header_size = omega (
      arith,
      length-append head zeros,
      length-replicate {A = ℕ} (file_header_size - length head) 0,
    ) in
    rw (take_all file_header_size head fits) (
      omega (
        arith,
        length-append head (zeros ++ bytes),
        length-append zeros bytes,
        length-append head zeros,
        full,
      ),
      ap (drop file_header_size) (sym (append_assoc head zeros bytes))
          ∙ drop-append file_header_size (head ++ zeros) bytes full,
      read_fields-payload_head index (length bytes) (zeros ++ bytes) i s,
    )
