-- ===== src/Reverse/Listeners.antt =====
-- Who owns the listeners of the reverse forwards: the map and its deletions, counted.
use adb_tcp_bridge.Common.{
  ℕ, ◌+◌, ◌≡◌, refl, none, some, List, [], ◌∷◌, arith, Bytes, bytes_eq, bytes_eq_iff, ◌==◌,
  if◌then◌else◌,
}
use adb_tcp_bridge.Reverse.{Mapping, lookup, delete, close_listener}

-- How often a handle stands in a list.
unfoldable pub count : ℕ → List ℕ → ℕ
count h [] = 0
count h (x ∷ xs) = (if x == h then 1 else 0) + count h xs

unfoldable pub handles : List (Bytes × Mapping) → List ℕ
handles [] = []
handles ((k, m) ∷ ms) = m.listener ∷ handles ms

-- Keys are distinct, and each is the local side of its mapping.
abbrev pub Keyed : List (Bytes × Mapping) → Type 0
Keyed [] = Unit {0}
Keyed ((k, m) ∷ ms) = (m.local ≡ k) × (lookup k ms ≡ none) × Keyed ms

pub count-close_listener :
    (h x : ℕ) (xs : List ℕ) → count h (close_listener x xs) ≡ (if x == h then 0 else count h xs)
unfolding count close_listener
count-close_listener h x [] = ground arith
count-close_listener h x (y ∷ ys) = ground (arith, count-close_listener h x ys)

pub lookup-delete :
    (j k : Bytes) (ms : List (Bytes × Mapping))
    → lookup j (delete k ms) ≡ (if bytes_eq k j then none else lookup j ms)
unfolding lookup delete
lookup-delete j k [] = ground arith
lookup-delete j k ((i, m) ∷ ms) =
    ground (arith, bytes_eq_iff k j, bytes_eq_iff i k, bytes_eq_iff i j, lookup-delete j k ms)

pub delete-Keyed : (k : Bytes) (ms : List (Bytes × Mapping)) → Keyed ms → Keyed (delete k ms)
unfolding delete
delete-Keyed k [] v = tt
delete-Keyed k ((i, m) ∷ ms) v =
    ground (arith, delete-Keyed k ms v.2, lookup-delete i k ms, bytes_eq_iff k i)

pub delete_absent :
    (k : Bytes) (ms : List (Bytes × Mapping)) → lookup k ms ≡ none → delete k ms ≡ ms
unfolding lookup delete
delete_absent k [] e = refl
delete_absent k ((i, m) ∷ ms) e = ground (arith, delete_absent k ms)

-- Deleting a key takes exactly its mapping's handle away.
pub count-delete :
    (h : ℕ) (k : Bytes) (ms : List (Bytes × Mapping)) (m : Mapping)
    → Keyed ms
    → lookup k ms ≡ some m
    → count h (handles ms) ≡ (if m.listener == h then 1 else 0) + count h (handles (delete k ms))
unfolding lookup delete count handles
count-delete h k [] m v e = cc
count-delete h k ((i, n) ∷ ms) m v e =
    ground (arith, bytes_eq_iff i k, delete_absent k ms, count-delete h k ms m v.2)
