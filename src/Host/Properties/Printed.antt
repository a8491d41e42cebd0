-- ===== src/Host/Properties/Printed.antt =====
-- The output of getprop, read back.
use adb_tcp_bridge.Common.{
  ◌<◌, ◌≡◌, ◌≢◌, refl, sym, ap, fun_ext, ◌∙◌, Bool, true, false, Option, none, some, List, [], ◌∷◌,
  ◌++◌, arith, Bytes, codes, bytes_eq, bytes_eq_iff, cut_prefix, ok, if◌then◌else◌, length,
  append_assoc, All, All-append,
}
use adb_tcp_bridge.Strings.{
  max_scan_token_size, trim_space, split_two, scan_line, also, scan_lines, scan_from,
}
use adb_tcp_bridge.Strings.Lines.{
  trim_space_framed, trim_suffix-append, trim_suffix_other, split_two-append, NoNewline,
  scan_from-line,
}
use adb_tcp_bridge.Host.Properties.{
  Properties, property, parse_getprop_line, parse_lines, scanned, parse_getprop,
}

-- "[key]: [value]"
abbrev pub property_line : Bytes × Bytes → Bytes
property_line (key, value) = b'[' ∷ (key ++ (codes "]: [" ++ (value ++ (b']' ∷ []))))

abbrev pub getprop_text : List (Bytes × Bytes) → Bytes
getprop_text [] = []
getprop_text (kv ∷ kvs) = property_line kv ++ (b'\n' ∷ getprop_text kvs)

-- The value of the last assignment to the key.
unfoldable pub last_value : Bytes → List (Bytes × Bytes) → Option Bytes
last_value key [] = none
last_value key ((k, v) ∷ kvs) = elim (last_value key kvs) [
  | some w ↦ some w
  | none ↦ if bytes_eq k key then some v else none
]

-- A key is not empty and has no bracket, neither has a newline, and the line fits the scanner.
pub record IsProperty (kv : Bytes × Bytes) : Type 0 where
  pub named : kv.0 ≢ []
  pub plain_key : All (λ c. c ≢ b']') kv.0
  pub key_line : NoNewline kv.0
  pub value_line : NoNewline kv.1
  pub fits : length (property_line kv) < max_scan_token_size

line_trimmed :
    (key value : Bytes) → trim_space (property_line (key, value)) ≡ property_line (key, value)
line_trimmed key value =
    let e : b'[' ∷ ((key ++ (codes "]: [" ++ value)) ++ (b']' ∷ [])) ≡ property_line (key, value) =
      ap (λ t. b'[' ∷ t)
        (append_assoc key (codes "]: [" ++ value) (b']' ∷ [])
          ∙ ap (λ t. key ++ t) (append_assoc (codes "]: [") value (b']' ∷ []))) in
    ap trim_space (sym e)
    ∙ trim_space_framed b'[' b']' (key ++ (codes "]: [" ++ value)) refl refl
    ∙ e

line_parsed :
    (key value : Bytes)
    → key ≢ []
    → All (λ c. c ≢ b']') key
    → parse_getprop_line (property_line (key, value)) ≡ some (key, value)
unfolding parse_getprop_line cut_prefix
line_parsed key value h p =
    let e : split_two (codes "]: [") (property_line (key, value))
        ≡ some (b'[' ∷ key, value ++ (b']' ∷ [])) =
      split_two-append b']' (codes ": [") (b'[' ∷ key) (value ++ (b']' ∷ []))
        (λ z. omega arith, p) in
    let n : bytes_eq key [] ≡ false = ground (arith, bytes_eq_iff key [], h) in
    rw (parse_getprop_line, line_trimmed key value, e) (rw (n, trim_suffix-append b']' value) refl)

line-NoNewline : (kv : Bytes × Bytes) → IsProperty kv → NoNewline (property_line kv)
line-NoNewline kv v = (
  λ z. omega arith,
  All-append (λ c. c ≢ b'\n') kv.0 _ v.key_line
      (
        λ z. omega arith,
        (
          λ z. omega arith,
          (
            λ z. omega arith,
            (
              λ z. omega arith,
              All-append (λ c. c ≢ b'\n') kv.1 (b']' ∷ []) v.value_line (λ z. omega arith, tt),
            ),
          ),
        ),
      ),
)

line_scanned : (kv : Bytes × Bytes) → scan_line (property_line kv) ≡ property_line kv
line_scanned (key, value) =
    let s : Bytes = b'[' ∷ (key ++ (codes "]: [" ++ value)) in
    let e : s ++ (b']' ∷ []) ≡ property_line (key, value) =
      ap (λ t. b'[' ∷ t)
        (append_assoc key (codes "]: [" ++ value) (b']' ∷ [])
          ∙ ap (λ t. key ++ t) (append_assoc (codes "]: [") value (b']' ∷ []))) in
    ap scan_line (sym e) ∙ trim_suffix_other b'\r' b']' s refl ∙ e

lines_of : List (Bytes × Bytes) → List Bytes
lines_of [] = []
lines_of (kv ∷ kvs) = property_line kv ∷ lines_of kvs

text_scanned :
    (kvs : List (Bytes × Bytes))
    → All IsProperty kvs
    → scan_lines (getprop_text kvs) ≡ (lines_of kvs, true)
unfolding lines_of
text_scanned [] v = unfold scan_from in refl
text_scanned (kv ∷ kvs) (v, vs) =
    scan_from-line [] (property_line kv) (getprop_text kvs) (line-NoNewline kv v)
      (omega (arith, v.fits))
    ∙ ap (also (property_line kv)) (text_scanned kvs vs)
    ∙ ap (λ l. (l ∷ lines_of kvs, true)) (line_scanned kv)

or_else : Option Bytes → Option Bytes → Option Bytes
or_else (some w) p = some w
or_else none p = p

or_else_assoc :
    (o p : Option Bytes) (w : Bytes) (b : Bool)
    → or_else o (if b then some w else p) ≡ or_else (or_else o (if b then some w else none)) p
unfolding or_else
or_else_assoc (some v) p w b = refl
or_else_assoc none p w true = refl
or_else_assoc none p w false = refl

last_value-cons :
    (key k w : Bytes) (kvs : List (Bytes × Bytes))
    → last_value key ((k, w) ∷ kvs)
      ≡ or_else (last_value key kvs) (if bytes_eq k key then some w else none)
unfolding last_value or_else
last_value-cons key k w kvs = ground arith

lines_parsed :
    (key : Bytes) (ps : Properties) (kvs : List (Bytes × Bytes))
    → All IsProperty kvs
    → property key (parse_lines ps (lines_of kvs)) ≡ or_else (last_value key kvs) (property key ps)
unfolding lines_of property parse_lines
lines_parsed key ps [] v = unfold last_value or_else in refl
lines_parsed key ps ((k, w) ∷ kvs) (v, vs) =
    ap
      (λ r. property key (
        parse_lines (elim r as (λ r. Properties) [ none ↦ ps | some kv ↦ kv ∷ ps ]) (lines_of kvs)))
      (line_parsed k w v.named v.plain_key)
    ∙ lines_parsed key ((k, w) ∷ ps) kvs vs
    ∙ or_else_assoc (last_value key kvs) (property key ps) w (bytes_eq k key)
    ∙ ap (λ o. or_else o (property key ps)) (sym (last_value-cons key k w kvs))

-- What getprop prints for properties, whose keys are not empty and have no "]", whose keys and values
-- have no newline and whose lines are shorter than 65536 bytes, is parsed without an error to a map
-- that has, for every key, the value of its last line, and no other key.
pub parse_getprop-getprop_text :
    (kvs : List (Bytes × Bytes))
    → All IsProperty kvs
    → (ps : Properties) × (parse_getprop (getprop_text kvs) ≡ ok ps)
      × (◌≡◌ {A = Bytes → Option Bytes} (λ key. property key ps) (λ key. last_value key kvs))
unfolding parse_getprop property last_value
parse_getprop-getprop_text kvs v = (
  parse_lines [] (lines_of kvs),
  ap scanned (text_scanned kvs v),
  fun_ext (λ key. lines_parsed key [] kvs v ∙ or_none (last_value key kvs)),
)
  where
    or_none : (o : Option Bytes) → or_else o none ≡ o
    or_none none = unfold or_else in refl
    or_none (some w) = unfold or_else in refl
