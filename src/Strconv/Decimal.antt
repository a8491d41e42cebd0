-- ===== src/Strconv/Decimal.antt =====
-- strconv.Atoi, and the decimal digits of a number, read back.
use adb_tcp_bridge.Common.{
  ℕ, zero, suc, ◌+◌, ◌/◌, ◌%◌, ◌^◌, ◌≤◌, ◌<◌, ◌≡◌, refl, ap, ◌∙◌, inl, inr, true, false, Option,
  none, some, [], ◌∷◌, ◌++◌, arith, Bytes, ltb, ◌==◌, if◌then◌else◌, length, length-append,
  Bool-cases, All, All-append, if_elim,
}
use adb_tcp_bridge.Strconv.{
  Parsed, value, bad_syntax, out_of_range, digit_value, next_value, parse_digits, parse_uint,
  parse_digits_step, decimal, itoa,
}

-- An int.
pub data ℤ : Type 0 where
  pos negsuc : ℕ → ℤ

abbrev number : Parsed → Option ℕ
number (value n) = some n
number bad_syntax = none
number out_of_range = none

-- The number of some digits, within 64 bits.
abbrev magnitude : Bytes → Option ℕ
magnitude s = number (parse_uint 10 64 s)

abbrev positive : Option ℕ → Option ℤ
positive none = none
positive (some n) = if ltb n (2 ^ 63) then some (pos n) else none

abbrev negative : Option ℕ → Option ℤ
negative none = none
negative (some zero) = some (pos 0)
negative (some (suc n)) = if ltb n (2 ^ 63) then some (negsuc n) else none

-- Atoi; an error is `none`.
unfoldable pub atoi : Bytes → Option ℤ
atoi [] = none
atoi (c ∷ s) =
    if c == b'-'
    then negative (magnitude s)
    else if c == b'+'
    then positive (magnitude s)
    else positive (magnitude (c ∷ s))

parse_digits-append :
    (base bits n v : ℕ) (xs ys : Bytes)
    → parse_digits base bits n xs ≡ value v
    → parse_digits base bits n (xs ++ ys) ≡ parse_digits base bits v ys
unfolding parse_digits
parse_digits-append base bits n v [] ys e = ground arith
parse_digits-append base bits n v (c ∷ xs) ys e =
    elim (next_value base bits n c)
        as (λ r.
          (elim r [
            | value n' ↦ parse_digits base bits n' xs
            | bad_syntax ↦ bad_syntax
            | out_of_range ↦ out_of_range
          ])
            ≡ value v
          → (elim r [
            | value n' ↦ parse_digits base bits n' (xs ++ ys)
            | bad_syntax ↦ bad_syntax
            | out_of_range ↦ out_of_range
          ])
            ≡ parse_digits base bits v ys) [
              | value n' ↦ λ p. parse_digits-append base bits n' v xs ys p
              | bad_syntax ↦ λ p. cc
              | out_of_range ↦ λ p. cc
            ]
      e

-- A decimal digit.
abbrev pub IsDigit : ℕ → Type 0
IsDigit c = (b'0' ≤ c) × (c ≤ b'9')

digit_value_lem : (d : ℕ) → d < 10 → digit_value 10 (b'0' + d) ≡ some d
unfolding digit_value
digit_value_lem d h = ground arith

pub decimal-digits : (k n : ℕ) → All IsDigit (decimal k n)
unfolding decimal
decimal-digits zero n = tt
decimal-digits (suc k) n = elim (Bool-cases (ltb n 10)) [
  | inl e ↦ rw (e, decimal) ((omega arith, ground arith), tt)
  | inr e ↦
      rw (e, decimal)
        (All-append IsDigit (decimal k (n / 10)) _ (decimal-digits k (n / 10))
          ((omega arith, omega arith), tt))
]

parse_digits-decimal : (k n : ℕ) → n < k → n < 2 ^ 64 → parse_digits 10 64 0 (decimal k n) ≡ value n
unfolding decimal
parse_digits-decimal zero n h b = absurd (omega arith)
parse_digits-decimal (suc k) n h b = elim (Bool-cases (ltb n 10)) [
  | inl e ↦
      rw (e, decimal)
        (parse_digits_step 10 64 0 (b'0' + n) n [] (digit_value_lem n (ground arith)) (omega arith)
          ∙ unfold parse_digits in ap value (omega arith))
  | inr e ↦
      rw (e, decimal)
        (parse_digits-append 10 64 0 (n / 10) (decimal k (n / 10)) ((b'0' + n % 10) ∷ [])
            (parse_digits-decimal k (n / 10) (ground arith) (omega arith))
          ∙ parse_digits_step 10 64 (n / 10) (b'0' + n % 10) (n % 10) []
              (digit_value_lem (n % 10) (omega arith)) (omega arith)
          ∙ unfold parse_digits in ap value (omega arith))
]

decimal_nonempty : (k n : ℕ) → 1 ≤ length (decimal (suc k) n)
unfolding decimal
decimal_nonempty k n =
    let more = length-append (decimal k (n / 10)) ((b'0' + n % 10) ∷ []) in
    if_elim (λ (s : Bytes). 1 ≤ length s) (ltb n 10) {x = (b'0' + n) ∷ []}
      {y = decimal k (n / 10) ++ ((b'0' + n % 10) ∷ [])} (λ _. omega arith)
      (λ _. omega (arith, more))

atoi_digits :
    (s : Bytes) (n : ℕ)
    → 1 ≤ length s
    → All IsDigit s
    → parse_digits 10 64 0 s ≡ value n
    → n < 2 ^ 63
    → atoi s ≡ some (pos n)
unfolding atoi parse_uint
atoi_digits [] n l d e h = absurd (omega arith)
atoi_digits (c ∷ s) n l (d, ds) e h =
    let minus : (c == b'-') ≡ false = ground arith in
    let plus : (c == b'+') ≡ false = ground arith in
    let small : ltb n (2 ^ 63) ≡ true = ground arith in
    rw (minus, plus) (ap (λ r. positive (number r)) e ∙ rw small refl)

add_one : (n : ℕ) → n + 1 ≡ suc n
add_one n = omega arith

-- An int that is not negative, written and read back.
pub atoi-itoa : (n : ℕ) → n < 2 ^ 63 → atoi (itoa n) ≡ some (pos n)
unfolding itoa
atoi-itoa n h = rw (add_one n) (
    atoi_digits (decimal (suc n) n) n (decimal_nonempty n n) (decimal-digits (suc n) n)
      (parse_digits-decimal (suc n) n (omega arith) (omega arith)) h)
