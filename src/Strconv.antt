-- ===== src/Strconv.antt =====
-- strconv.ParseUint and the %04x verb of fmt, as far as the code uses them.
pub mod Decimal
use adb_tcp_bridge.Common.{
  ℕ, zero, suc, ◌++◌, ◌+◌, ◌-◌, ◌*◌, ◌/◌, ◌%◌, ◌^◌, ◌≤◌, ◌<◌, ◌≡◌, refl, ap, ◌∙◌, ◌&&◌, Option,
  none, some, [], ◌∷◌, arith, Bytes, ltb, leb, if◌then◌else◌,
}

-- ParseUint: the value, or one of its two errors. The error for a value out of range comes with
-- the greatest value of the width, and the one for bad syntax with 0.
pub data Parsed : Type 0 where
  value : ℕ → Parsed
  bad_syntax out_of_range : Parsed

-- The digit that a byte stands for in a base of at most 36.
unfoldable pub digit_value : ℕ → ℕ → Option ℕ
digit_value base c =
    let d : Option ℕ =
      if leb b'0' c && leb c b'9'
      then some (c - b'0')
      else if leb b'a' c && leb c b'z'
      then some (c - b'a' + 10)
      else if leb b'A' c && leb c b'Z'
      then some (c - b'A' + 10)
      else none in
    elim d [ none ↦ none | some v ↦ if ltb v base then some v else none ]

-- One round of the loop: the next value of `n`, or the error.
abbrev next_value : ℕ → ℕ → ℕ → ℕ → Parsed
next_value base bits n c = elim (digit_value base c) [
  | none ↦ bad_syntax
  | some d ↦ if leb (2 ^ bits) (n * base + d) then out_of_range else value (n * base + d)
]

unfoldable pub parse_digits : ℕ → ℕ → ℕ → Bytes → Parsed
parse_digits base bits n [] = value n
parse_digits base bits n (c ∷ s) = elim (next_value base bits n c) [
  | value n' ↦ parse_digits base bits n' s
  | bad_syntax ↦ bad_syntax
  | out_of_range ↦ out_of_range
]

unfoldable pub parse_uint : ℕ → ℕ → Bytes → Parsed
unfolding parse_digits
parse_uint base bits [] = bad_syntax
parse_uint base bits (c ∷ s) = parse_digits base bits 0 (c ∷ s)

-- The digits of %x are in lower case.
unfoldable pub hex_digit : ℕ → ℕ
hex_digit d = if ltb d 10 then b'0' + d else b'a' + (d - 10)

-- %04x of a number of at most 0xffff, which has four digits. The code formats no other.
unfoldable pub hex4 : ℕ → Bytes
hex4 n =
    hex_digit (n / 0x1000 % 16)
    ∷ hex_digit (n / 0x100 % 16)
    ∷ hex_digit (n / 0x10 % 16)
    ∷ hex_digit (n % 16)
    ∷ []

digit_value-hex_digit : (d : ℕ) → d < 16 → digit_value 16 (hex_digit d) ≡ some d
unfolding digit_value hex_digit
digit_value-hex_digit d h = ground arith

parse_digits_step :
    (base bits n c d : ℕ) (s : Bytes)
    → digit_value base c ≡ some d
    → n * base + d < 2 ^ bits
    → parse_digits base bits n (c ∷ s) ≡ parse_digits base bits (n * base + d) s
unfolding parse_digits
parse_digits_step base bits n c d s e h = ground arith

hex_step :
    (n d : ℕ) (s : Bytes)
    → d < 16
    → n * 16 + d < 2 ^ 16
    → parse_digits 16 16 n (hex_digit d ∷ s) ≡ parse_digits 16 16 (n * 16 + d) s
hex_step n d s hd h = parse_digits_step 16 16 n (hex_digit d) d s (digit_value-hex_digit d hd) h

hex_digits-value :
    (a b c d : ℕ)
    → (a < 16) × (b < 16) × (c < 16) × (d < 16)
    → parse_uint 16 16 (hex_digit a ∷ hex_digit b ∷ hex_digit c ∷ hex_digit d ∷ [])
      ≡ value (a * 0x1000 + b * 0x100 + c * 0x10 + d)
unfolding parse_uint
hex_digits-value a b c d h =
    hex_step 0 a (hex_digit b ∷ hex_digit c ∷ hex_digit d ∷ []) h.0 (omega arith)
    ∙ hex_step (0 * 16 + a) b (hex_digit c ∷ hex_digit d ∷ []) h.1 (omega arith)
    ∙ hex_step ((0 * 16 + a) * 16 + b) c (hex_digit d ∷ []) h.2 (omega arith)
    ∙ hex_step (((0 * 16 + a) * 16 + b) * 16 + c) d [] h.3 (omega arith)
    ∙ ap value (omega arith)

-- Four lower-case hexadecimal digits read back.
pub parse_uint-hex4 : (n : ℕ) → n ≤ 0xffff → parse_uint 16 16 (hex4 n) ≡ value n
unfolding hex4
parse_uint-hex4 n h =
    hex_digits-value (n / 0x1000 % 16) (n / 0x100 % 16) (n / 0x10 % 16) (n % 16) (omega arith)
    ∙ ap value (omega arith)

next_value-lt : (base bits n c v : ℕ) → next_value base bits n c ≡ value v → v < 2 ^ bits
next_value-lt base bits n c v e = ground arith

-- A parsed value fits its width.
pub parse_digits-lt :
    (base bits n : ℕ) (s : Bytes) (v : ℕ)
    → n < 2 ^ bits
    → parse_digits base bits n s ≡ value v
    → v < 2 ^ bits
unfolding parse_digits
parse_digits-lt base bits n [] v h e = ground arith
parse_digits-lt base bits n (c ∷ s) v h e =
    elim (next_value base bits n c)
        as (λ r.
          next_value base bits n c ≡ r
          → elim r [
            | value n' ↦ parse_digits base bits n' s
            | bad_syntax ↦ bad_syntax
            | out_of_range ↦ out_of_range
          ]
            ≡ value v
          → v < 2 ^ bits) [
            | value n' ↦
                λ q f. parse_digits-lt base bits n' s v (next_value-lt base bits n c n' q) f
            | bad_syntax ↦ λ q f. cc
            | out_of_range ↦ λ q f. cc
          ]
      refl e

-- strconv.Itoa and %d of a number that is not negative. The fuel bounds the number of digits.
unfoldable pub decimal : ℕ → ℕ → Bytes
decimal zero n = []
decimal (suc fuel) n =
    let front = decimal fuel (n / 10) in
    if ltb n 10 then (b'0' + n) ∷ [] else front ++ ((b'0' + n % 10) ∷ [])

unfoldable pub itoa : ℕ → Bytes
unfolding decimal
itoa n = decimal (n + 1) n
