-- ===== src/Session/Ids.antt =====
-- The local ids that allocateLocalID hands out.
use adb_tcp_bridge.Common.{ℕ, zero, suc, ◌+◌, ◌-◌, ◌%◌, ◌<◌, ◌≡◌, ◌∙◌, refl, arith}
use adb_tcp_bridge.Common.Word.{IsU32}
use adb_tcp_bridge.Session.{Session, next_id, allocate_local_id}

-- The session after k calls.
unfoldable pub allocated : ℕ → Session → Session
allocated zero s = s
allocated (suc k) s = allocated k (allocate_local_id s).1

nth_id : ℕ → ℕ → ℕ
nth_id zero id = id
nth_id (suc k) id = nth_id k (next_id id)

next_id_range : (id : ℕ) → IsU32 id → (0 < next_id id) × IsU32 (next_id id)
unfolding next_id
next_id_range id h = ground arith

next_id_lem : (id : ℕ) → 0 < id → IsU32 id → next_id id ≡ id % 0xffffffff + 1
unfolding next_id
next_id_lem id p h = ground arith

nth_id_lem : (k id : ℕ) → 0 < id → IsU32 id → nth_id k id ≡ (id - 1 + k) % 0xffffffff + 1
unfolding nth_id
nth_id_lem zero id p h = omega arith
nth_id_lem (suc k) id p h =
    let (q, u) = next_id_range id h in
    omega (arith, nth_id_lem k (next_id id) q u, next_id_lem id p h)

allocated_id : (k : ℕ) (s : Session) → (allocated k s).next_local_id ≡ nth_id k s.next_local_id
unfolding allocated nth_id allocate_local_id
allocated_id zero s = refl
allocated_id (suc k) s = allocated_id k (allocate_local_id s).1

-- If the next id of a session is a uint32 other than 0, the id that the call number k (from 0)
-- hands out runs through 1 to 2 ^ 32 - 1 and then again from 1: it is never 0, and no id comes
-- back before all the others have been used.
pub allocate_local_id_lem :
    (k : ℕ) (s : Session)
    → 0 < s.next_local_id
    → IsU32 s.next_local_id
    → (allocate_local_id (allocated k s)).0 ≡ (s.next_local_id - 1 + k) % 0xffffffff + 1
unfolding allocate_local_id
allocate_local_id_lem k s p h = allocated_id k s ∙ nth_id_lem k s.next_local_id p h
