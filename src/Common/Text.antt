-- ===== src/Common/Text.antt =====
-- Go strings and byte slices as lists of bytes, with the functions of `strings` that the code uses.
use Prim.Native.Nat.{ℕ, ◌<◌, compare, Ordering}
use Prim.Native.Char.{code}
use Prim.Native.String.{String}
use mathlib.Core.Path.{◌≡◌, refl}
use mathlib.Core.Logic.{◌↔◌}
use mathlib.Core.Bool.{Bool, true, false, ◌&&◌}
use mathlib.Core.Option.{Option, none, some}
use mathlib.Core.List.{List, [], ◌∷◌, ◌++◌}
use native.Mathlib.Omega.{arith}

abbrev pub Bytes : Type 0
Bytes = List ℕ

abbrev pub IsByte : ℕ → Type 0
IsByte b = b < 256

-- The bytes of an ASCII literal.
abbrev pub codes : String → Bytes
codes String.[] = []
codes (String.◌∷◌ c s) = code c ∷ codes s

nat_eq : ℕ → ℕ → Bool
nat_eq a b = elim (compare a b) [ Ordering.eq ↦ true | _ ↦ false ]

nat_eq_iff : (a b : ℕ) → (nat_eq a b ≡ true) ↔ (a ≡ b)
unfolding nat_eq
nat_eq_iff a b = ground arith

-- Go's == on strings.
unfoldable pub bytes_eq : Bytes → Bytes → Bool
unfolding nat_eq
bytes_eq [] [] = true
bytes_eq [] (b ∷ bs) = false
bytes_eq (a ∷ as') [] = false
bytes_eq (a ∷ as') (b ∷ bs) = nat_eq a b && bytes_eq as' bs

pub bytes_eq→eq : (xs ys : Bytes) → bytes_eq xs ys ≡ true → xs ≡ ys
unfolding bytes_eq
bytes_eq→eq [] [] h = refl
bytes_eq→eq [] (b ∷ bs) h = cc
bytes_eq→eq (a ∷ xs) [] h = cc
bytes_eq→eq (a ∷ xs) (b ∷ ys) h = ground (arith, nat_eq_iff a b, bytes_eq→eq xs ys)

pub bytes_eq_refl : (xs : Bytes) → bytes_eq xs xs ≡ true
unfolding bytes_eq
bytes_eq_refl [] = refl
bytes_eq_refl (a ∷ xs) = ground (arith, nat_eq_iff a a, bytes_eq_refl xs)

pub bytes_eq_iff : (xs ys : Bytes) → (bytes_eq xs ys ≡ true) ↔ (xs ≡ ys)
bytes_eq_iff xs ys = (bytes_eq→eq xs ys, λ e. rw (← e) (bytes_eq_refl xs))

-- strings.CutPrefix: what follows the prefix, or none.
unfoldable pub cut_prefix : Bytes → Bytes → Option Bytes
unfolding nat_eq
cut_prefix [] s = some s
cut_prefix (p ∷ ps) [] = none
cut_prefix (p ∷ ps) (c ∷ s) = elim (nat_eq p c) [ true ↦ cut_prefix ps s | false ↦ none ]

pub cut_prefix-append : (p s : Bytes) → cut_prefix p (p ++ s) ≡ some s
unfolding cut_prefix
cut_prefix-append [] s = refl
cut_prefix-append (c ∷ p) s = ground (arith, nat_eq_iff c c, cut_prefix-append p s)

pub cut_prefix→append : (p s rest : Bytes) → cut_prefix p s ≡ some rest → s ≡ p ++ rest
unfolding cut_prefix
cut_prefix→append [] s rest h = ground arith
cut_prefix→append (c ∷ p) [] rest h = cc
cut_prefix→append (c ∷ p) (d ∷ s) rest h =
    ground (arith, nat_eq_iff c d, cut_prefix→append p s rest)

-- strings.HasPrefix.
abbrev pub has_prefix : Bytes → Bytes → Bool
has_prefix p s = elim (cut_prefix p s) [ none ↦ false | some _ ↦ true ]

-- strings.Cut at a separator of one byte: what stands before and behind its first occurrence.
unfoldable pub cut : ℕ → Bytes → Option (Bytes × Bytes)
unfolding nat_eq
cut sep [] = none
cut sep (c ∷ s) = elim (nat_eq c sep) [
  | true ↦ some ([], s)
  | false ↦ elim (cut sep s) [ none ↦ none | some (front, back) ↦ some (c ∷ front, back) ]
]
