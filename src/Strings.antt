-- ===== src/Strings.antt =====
-- The functions of `strings` and `bufio` that the parsers use, on bytes. White space and letters are
-- those of ASCII.
pub mod Lines
use adb_tcp_bridge.Common.{
  ℕ, suc, ◌+◌, Bool, true, false, ◌&&◌, ◌||◌, Option, none, some, List, [], ◌∷◌, ◌++◌, map, Bytes,
  codes, bytes_eq, cut_prefix, has_prefix, ltb, leb, ◌==◌, if◌then◌else◌, length,
}

abbrev pub is_space : ℕ → Bool
is_space c = c == b' ' || (leb 9 c && leb c 13)

unfoldable pub trim_left : Bytes → Bytes
trim_left [] = []
trim_left (c ∷ cs) = if is_space c then trim_left cs else c ∷ cs

unfoldable pub trim_right : Bytes → Bytes
trim_right [] = []
trim_right (c ∷ cs) = elim (trim_right cs) [
  | [] ↦ if is_space c then [] else c ∷ []
  | d ∷ ds ↦ c ∷ d ∷ ds
]

-- strings.TrimSpace
abbrev pub trim_space : Bytes → Bytes
trim_space s = trim_right (trim_left s)

-- strings.TrimPrefix
abbrev pub trim_prefix : Bytes → Bytes → Bytes
trim_prefix p s = elim (cut_prefix p s) [ none ↦ s | some rest ↦ rest ]

-- strings.TrimSuffix with a suffix of one byte
unfoldable pub trim_suffix : ℕ → Bytes → Bytes
trim_suffix x [] = []
trim_suffix x (c ∷ []) = if c == x then [] else c ∷ []
trim_suffix x (c ∷ d ∷ cs) = c ∷ trim_suffix x (d ∷ cs)

-- The parts of strings.SplitN(s, sep, 2), if there are two.
unfoldable pub split_two : Bytes → Bytes → Option (Bytes × Bytes)
split_two sep [] = none
split_two sep (c ∷ cs) = elim (cut_prefix sep (c ∷ cs)) [
  | some rest ↦ some ([], rest)
  | none ↦ elim (split_two sep cs) [ none ↦ none | some (front, back) ↦ some (c ∷ front, back) ]
]

abbrev before_first : ℕ → List Bytes → List Bytes
before_first c [] = (c ∷ []) ∷ []
before_first c (p ∷ ps) = (c ∷ p) ∷ ps

-- strings.Split with a separator of one byte
unfoldable pub split_on : ℕ → Bytes → List Bytes
split_on x [] = [] ∷ []
split_on x (c ∷ cs) = let rest = split_on x cs in if c == x then [] ∷ rest else before_first c rest

-- strings.Join with a separator of one byte
unfoldable pub join_by : ℕ → List Bytes → Bytes
join_by x [] = []
join_by x (p ∷ []) = p
join_by x (p ∷ q ∷ ps) = p ++ (x ∷ join_by x (q ∷ ps))

-- strings.Contains, with a text that is not empty
unfoldable pub contains : Bytes → Bytes → Bool
unfolding split_two
contains sub s = elim (split_two sub s) [ none ↦ false | some _ ↦ true ]

abbrev pub lower : ℕ → ℕ
lower c = if leb b'A' c && leb c b'Z' then c + 32 else c

-- strings.ToLower
abbrev pub to_lower : Bytes → Bytes
to_lower = map lower

-- One byte in front of the fields of the rest: the flag says whether the rest begins with a field.
abbrev pub add_byte : ℕ → Bool × List Bytes → Bool × List Bytes
add_byte c (true, f ∷ fs) = (true, (c ∷ f) ∷ fs)
add_byte c (_, fs) = (true, (c ∷ []) ∷ fs)

unfoldable pub fields_of : Bytes → Bool × List Bytes
fields_of [] = (false, [])
fields_of (c ∷ cs) = if is_space c then (false, (fields_of cs).1) else add_byte c (fields_of cs)

-- strings.Fields
abbrev pub fields : Bytes → List Bytes
fields s = (fields_of s).1

-- bufio.MaxScanTokenSize
abbrev pub max_scan_token_size : ℕ
max_scan_token_size = 0x1_0000

-- ScanLines drops one carriage return at the end of a line.
abbrev pub scan_line : Bytes → Bytes
scan_line = trim_suffix b'\r'

abbrev pub also : Bytes → List Bytes × Bool → List Bytes × Bool
also line (ls, fine) = (scan_line line ∷ ls, fine)

-- The lines from the middle of one on, of which `line` was read, and whether Err is nil at the end: the
-- scan stops at a line that, with its newline, does not fit the buffer.
unfoldable pub scan_from : Bytes → Bytes → List Bytes × Bool
scan_from line [] =
    if leb max_scan_token_size (length line)
    then ([], false)
    else elim line [ [] ↦ ([], true) | c ∷ cs ↦ (scan_line (c ∷ cs) ∷ [], true) ]
scan_from line (c ∷ cs) =
    if leb max_scan_token_size (length line) then ([], false) else elim (c == b'\n') [
      | true ↦ also line (scan_from [] cs)
      | false ↦ scan_from (line ++ (c ∷ [])) cs
    ]

-- The texts that a bufio.Scanner gives, with its default buffer.
abbrev pub scan_lines : Bytes → List Bytes × Bool
scan_lines = scan_from []
