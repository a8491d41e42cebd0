-- ===== src/Hdc/Transfer/Varint.antt =====
-- Varints read back.
use adb_tcp_bridge.Common.{
  ℕ, zero, suc, ◌+◌, ◌-◌, ◌*◌, ◌/◌, ◌%◌, ◌^◌, ◌≤◌, ◌<◌, ◌≡◌, refl, ap, ◌∙◌, false, Option, none,
  some, [], ◌∷◌, ◌++◌, arith, Bytes, ltb, if◌then◌else◌, length, Bool-cases, inl, inr,
}
use adb_tcp_bridge.Common.Bits.{set_top_bit}
use adb_tcp_bridge.Hdc.Transfer.{proto_bytes, proto_varint}

-- protobuf's own description of a varint: groups of seven bits, lowest first, all but the last with
-- the top bit set.
unfoldable pub varint_value : Bytes → Option (ℕ × Bytes)
varint_value [] = none
varint_value (b ∷ bs) =
    let rest = varint_value bs in
    if ltb b 128
    then some (b, bs)
    else elim rest [ none ↦ none | some (v, bs') ↦ some (b - 128 + 128 * v, bs') ]

-- What k rounds and a last byte can hold.
limit : ℕ → ℕ
limit zero = 128
limit (suc k) = 128 * limit k

continued :
    (low v : ℕ) (bs rest : Bytes)
    → low < 128
    → varint_value bs ≡ some (v, rest)
    → varint_value ((low + 128) ∷ bs) ≡ some (low + 128 * v, rest)
unfolding varint_value
continued low v bs rest h e =
    let top : ltb (low + 128) 128 ≡ false = ground arith in
    let same : low + 128 - 128 ≡ low = omega arith in rw (top, e, same) refl

proto_bytes_goes_on :
    (k value : ℕ)
    → ltb value 0x80 ≡ false
    → proto_bytes (suc k) value ≡ (value % 256 % 128 + 128) ∷ proto_bytes k (value / 128)
unfolding proto_bytes
proto_bytes_goes_on k value e = rw (e, set_top_bit (value % 256) (omega arith)) refl

proto_bytes-varint_value :
    (k value : ℕ) (rest : Bytes)
    → value < limit k
    → varint_value (proto_bytes k value ++ rest) ≡ some (value, rest)
unfolding limit proto_bytes varint_value
proto_bytes-varint_value zero value rest h =
    let e : value % 256 ≡ value = omega arith in rw e (ground arith)
proto_bytes-varint_value (suc k) value rest h = elim (Bool-cases (ltb value 0x80)) [
  | inl e ↦ let s : value % 256 ≡ value = ground (arith, e) in rw e (rw s (rw e refl))
  | inr e ↦
      let ih = proto_bytes-varint_value k (value / 128) rest (omega arith) in
      let sum : value % 256 % 128 + 128 * (value / 128) ≡ value = omega arith in
      ap (λ bs. varint_value (bs ++ rest)) (proto_bytes_goes_on k value e)
      ∙ continued (value % 256 % 128) (value / 128) _ rest (omega arith) ih
      ∙ ap (λ v. some (v, rest)) sum
]

length-proto_bytes : (k value : ℕ) → length (proto_bytes k value) ≤ suc k
unfolding proto_bytes
length-proto_bytes zero value = omega arith
length-proto_bytes (suc k) value = ground (arith, length-proto_bytes k (value / 128))

-- The varint of a uint64 is read back as that number, whatever follows, and has at most ten bytes.
pub varint_value-proto_varint :
    (value : ℕ) (rest : Bytes)
    → value < 2 ^ 64
    → (varint_value (proto_varint value ++ rest) ≡ some (value, rest))
      × (length (proto_varint value) ≤ 10)
unfolding limit
varint_value-proto_varint value rest h =
    (proto_bytes-varint_value 9 value rest (omega arith), length-proto_bytes 9 value)
