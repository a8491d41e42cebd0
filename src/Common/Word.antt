-- ===== src/Common/Word.antt =====
-- encoding/binary: unsigned integers of fixed width as bytes, in both orders.
use Prim.Native.Nat.{ℕ, zero, suc, ◌+◌, ◌*◌, ◌/◌, ◌%◌, ◌^◌, ◌<◌}
use mathlib.Core.Path.{◌≡◌, refl}
use mathlib.Core.List.{[], ◌∷◌}
use native.Mathlib.Nat.{pow-suc}
use native.Mathlib.Omega.{arith}
use adb_tcp_bridge.Common.Text.{Bytes, IsByte}
use adb_tcp_bridge.Common.Lists.{length, All}

abbrev pub IsU32 : ℕ → Type 0
IsU32 v = v < 2 ^ 32

-- LittleEndian.PutUint16 (k = 2) and PutUint32 (k = 4): the k bytes of v, lowest first.
unfoldable pub le_bytes : ℕ → ℕ → Bytes
le_bytes zero v = []
le_bytes (suc k) v = (v % 256) ∷ le_bytes k (v / 256)

-- LittleEndian.Uint16 and Uint32 of a slice of two or four bytes.
unfoldable pub le_value : Bytes → ℕ
le_value [] = 0
le_value (b ∷ bs) = b + 256 * le_value bs

-- BigEndian.PutUint32.
unfoldable pub be_bytes : ℕ → Bytes
be_bytes v = (v / 0x1000000 % 256) ∷ (v / 0x10000 % 256) ∷ (v / 0x100 % 256) ∷ (v % 256) ∷ []

-- BigEndian.Uint32 of a slice of four bytes.
unfoldable pub be_value : Bytes → ℕ
be_value (a ∷ b ∷ c ∷ d ∷ []) = a * 0x1000000 + b * 0x10000 + c * 0x100 + d
be_value _ = 0

pub length-le_bytes : (k v : ℕ) → length (le_bytes k v) ≡ k
unfolding le_bytes
length-le_bytes zero v = refl
length-le_bytes (suc k) v = omega (arith, length-le_bytes k (v / 256))

pub le_bytes-IsByte : (k v : ℕ) → All IsByte (le_bytes k v)
unfolding le_bytes
le_bytes-IsByte zero v = tt
le_bytes-IsByte (suc k) v = (omega arith, le_bytes-IsByte k (v / 256))

pub le_value-le_bytes : (k v : ℕ) → v < 256 ^ k → le_value (le_bytes k v) ≡ v
unfolding le_bytes le_value
le_value-le_bytes zero v h = omega arith
le_value-le_bytes (suc k) v h =
    omega (arith, le_value-le_bytes k (v / 256) (omega (arith, pow-suc 256 k)))

pub le_value-lt : (k : ℕ) (bs : Bytes) → length bs ≡ k → All IsByte bs → le_value bs < 256 ^ k
unfolding le_value
le_value-lt zero [] h b = omega arith
le_value-lt zero (x ∷ bs) h b = absurd (omega arith)
le_value-lt (suc k) [] h b = absurd (omega arith)
le_value-lt (suc k) (x ∷ bs) h b =
    omega (arith, b.0, pow-suc 256 k, le_value-lt k bs (omega arith) b.1)

pub le_bytes-le_value :
    (k : ℕ) (bs : Bytes) → length bs ≡ k → All IsByte bs → le_bytes k (le_value bs) ≡ bs
unfolding le_bytes le_value
le_bytes-le_value zero [] h b = refl
le_bytes-le_value zero (x ∷ bs) h b = absurd (omega arith)
le_bytes-le_value (suc k) [] h b = absurd (omega arith)
le_bytes-le_value (suc k) (x ∷ bs) h b =
    let lo : (x + 256 * le_value bs) % 256 ≡ x = omega (arith, b.0) in
    let hi : (x + 256 * le_value bs) / 256 ≡ le_value bs = omega (arith, b.0) in
    rw (lo, hi, le_bytes-le_value k bs (omega arith) b.1)

pub length-be_bytes : (v : ℕ) → length (be_bytes v) ≡ 4
unfolding be_bytes
length-be_bytes v = refl

pub be_value-be_bytes : (v : ℕ) → IsU32 v → be_value (be_bytes v) ≡ v
unfolding be_bytes be_value
be_value-be_bytes v h = omega arith

pub be_bytes-be_value : (bs : Bytes) → length bs ≡ 4 → All IsByte bs → be_bytes (be_value bs) ≡ bs
unfolding be_bytes be_value
be_bytes-be_value (a ∷ b ∷ c ∷ d ∷ []) h x = ground arith
be_bytes-be_value [] h x = absurd (omega arith)
be_bytes-be_value (a ∷ []) h x = absurd (omega arith)
be_bytes-be_value (a ∷ b ∷ []) h x = absurd (omega arith)
be_bytes-be_value (a ∷ b ∷ c ∷ []) h x = absurd (omega arith)
be_bytes-be_value (a ∷ b ∷ c ∷ d ∷ e ∷ r) h x = absurd (omega arith)
