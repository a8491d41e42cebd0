-- ===== src/Strings/Lines.antt =====
-- Trimming, splitting and scanning of texts of a known form.
use adb_tcp_bridge.Common.{
  ℕ, ◌+◌, ◌<◌, ◌≡◌, ◌≢◌, refl, ap, ◌∙◌, inl, inr, false, none, some, [], ◌∷◌, ◌++◌, arith, Bytes,
  cut_prefix, cut_prefix-append, cut_prefix→append, leb, ◌==◌, ==_iff, if◌then◌else◌, length,
  length-append, append_assoc, append-nil, All, Option-cases,
}
use adb_tcp_bridge.Strings.{
  is_space, trim_left, trim_right, trim_space, trim_suffix, split_two, max_scan_token_size, also,
  scan_from, scan_lines,
}

pub trim_right_end :
    (s : Bytes) (c : ℕ) → is_space c ≡ false → trim_right (s ++ (c ∷ [])) ≡ s ++ (c ∷ [])
unfolding trim_right
trim_right_end [] c h = ground arith
trim_right_end (d ∷ s) c h = rw (trim_right_end s c h) (front s)
  where
    front :
        (s : Bytes)
        → elim (s ++ (c ∷ [])) as (λ t. Bytes) [
          | [] ↦ if is_space d then [] else d ∷ []
          | x ∷ xs ↦ d ∷ x ∷ xs
        ]
          ≡ d ∷ (s ++ (c ∷ []))
    front [] = refl
    front (x ∷ s) = refl

-- A text between two bytes that are not spaces is not trimmed.
pub trim_space_framed :
    (a b : ℕ) (s : Bytes)
    → is_space a ≡ false
    → is_space b ≡ false
    → trim_space (a ∷ (s ++ (b ∷ []))) ≡ a ∷ (s ++ (b ∷ []))
trim_space_framed a b s h k = unfold trim_left in rw h (trim_right_end (a ∷ s) b k)

pub trim_suffix-append : (c : ℕ) (s : Bytes) → trim_suffix c (s ++ (c ∷ [])) ≡ s
unfolding trim_suffix
trim_suffix-append c [] = ground (arith, ==_iff c c)
trim_suffix-append c (a ∷ []) = ap (λ t. a ∷ t) (trim_suffix-append c [])
trim_suffix-append c (a ∷ b ∷ s) = ap (λ t. a ∷ t) (trim_suffix-append c (b ∷ s))

pub trim_suffix_other :
    (c d : ℕ) (s : Bytes) → (d == c) ≡ false → trim_suffix c (s ++ (d ∷ [])) ≡ s ++ (d ∷ [])
unfolding trim_suffix
trim_suffix_other c d [] h = rw h refl
trim_suffix_other c d (a ∷ []) h = ap (λ t. a ∷ t) (trim_suffix_other c d [] h)
trim_suffix_other c d (a ∷ b ∷ s) h = ap (λ t. a ∷ t) (trim_suffix_other c d (b ∷ s) h)

cut_prefix_ne : (x c : ℕ) (sep s : Bytes) → c ≢ x → cut_prefix (x ∷ sep) (c ∷ s) ≡ none
cut_prefix_ne x c sep s h = elim (Option-cases (cut_prefix (x ∷ sep) (c ∷ s))) [
  | inl e ↦ e
  | inr (rest, e) ↦ absurd (h (heads (cut_prefix→append (x ∷ sep) (c ∷ s) rest e)))
]
  where
    heads : {t : Bytes} → c ∷ s ≡ x ∷ t → c ≡ x
    heads e = cc

-- The first occurrence of a separator whose first byte the front does not have.
pub split_two-append :
    (x : ℕ) (sep front back : Bytes)
    → All (λ c. c ≢ x) front
    → split_two (x ∷ sep) (front ++ ((x ∷ sep) ++ back)) ≡ some (front, back)
unfolding split_two
split_two-append x sep [] back h = rw (split_two, cut_prefix-append (x ∷ sep) back) refl
split_two-append x sep (c ∷ front) back (h, hs) =
    let e : cut_prefix (x ∷ sep) (c ∷ (front ++ ((x ∷ sep) ++ back))) ≡ none =
      cut_prefix_ne x c sep _ h in
    rw (split_two, e, split_two-append x sep front back hs) refl

abbrev pub NoNewline : Bytes → Type 0
NoNewline = All (λ c. c ≢ b'\n')

-- One line and its newline, in front of the rest.
pub scan_from-line :
    (front line rest : Bytes)
    → NoNewline line
    → length front + length line < max_scan_token_size
    → scan_from front (line ++ (b'\n' ∷ rest)) ≡ also (front ++ line) (scan_lines rest)
unfolding scan_from
scan_from-line front [] rest n h =
    let k : leb max_scan_token_size (length front) ≡ false = ground arith in
    rw (k, append-nil front) refl
scan_from-line front (c ∷ line) rest (n, ns) h =
    let k : leb max_scan_token_size (length front) ≡ false = ground arith in
    let e : (c == b'\n') ≡ false = ground (arith, ==_iff c b'\n') in
    let ih =
      scan_from-line (front ++ (c ∷ [])) line rest ns
        (omega (arith, length-append front (c ∷ []))) in
    rw (k, e) (ih ∙ ap (λ t. also t (scan_lines rest)) (append_assoc front (c ∷ []) line))
