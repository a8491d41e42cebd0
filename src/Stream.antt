-- ===== src/Stream.antt =====
-- The two sides of a connection as the codecs see them: an io.Reader is the bytes that are still
-- to come, after which it reports EOF; an io.Writer accepts a number of Write calls and then fails.
use adb_tcp_bridge.Common.{
  ℕ, zero, suc, ◌<◌, ◌≡◌, Bool, true, false, [], ◌∷◌, ◌++◌, ◌⊎◌, inl, inr, arith, Bytes, Result, ok,
  err, leb, if◌then◌else◌, length, take, drop, take-append, drop-append, length-append, length-take,
  take-append-drop,
}

pub data ReadError : Type 0 where
  eof unexpected_eof : ReadError

-- io.ReadFull into a buffer of n bytes: EOF if nothing came, ErrUnexpectedEOF if too little did.
unfoldable pub read_full : ℕ → Bytes → Result ReadError (Bytes × Bytes)
read_full n s =
    if leb n (length s)
    then ok (take n s, drop n s)
    else elim s [ [] ↦ err eof | _ ∷ _ ↦ err unexpected_eof ]

-- A writer has its output so far and the number of Write calls that will still succeed.
pub record Writer : Type 0 where
  pub written : Bytes
  pub budget : ℕ

-- w.Write(p): the writer afterwards, and whether the error is nil.
unfoldable pub write : Bytes → Writer → Writer × Bool
write p w = elim w.budget [
  | zero ↦ (w, false)
  | suc n ↦ (record { written = w.written ++ p; budget = n }, true)
]

-- `if _, err := w.Write(p); err != nil { return err }` followed by the rest.
abbrev pub then_write : Writer × Bool → (Writer → Writer × Bool) → Writer × Bool
then_write r k = if r.1 then k r.0 else r

abbrev pub new_writer : ℕ → Writer
new_writer n = record { written = []; budget = n }

pub read_full-append :
    (n : ℕ) (xs ys : Bytes) → length xs ≡ n → read_full n (xs ++ ys) ≡ ok (xs, ys)
unfolding read_full
read_full-append n xs ys h =
    ground (arith, take-append n xs ys h, drop-append n xs ys h, length-append xs ys)

-- A full read that succeeds splits the input after n bytes.
pub read_full-splits :
    (n : ℕ) (s xs ys : Bytes) → read_full n s ≡ ok (xs, ys) → (s ≡ xs ++ ys) × (length xs ≡ n)
unfolding read_full
read_full-splits n [] xs ys h =
    ground (arith, take-append-drop {A = ℕ} n [], length-take {A = ℕ} n [])
read_full-splits n (x ∷ s) xs ys h =
    ground (arith, take-append-drop n (x ∷ s), length-take n (x ∷ s))

-- On too short an input the read fails: by EOF exactly if there was no byte at all.
pub read_full_short :
    (n : ℕ) (s : Bytes)
    → length s < n
    → ((s ≡ []) × (read_full n s ≡ err eof)) ⊎ (read_full n s ≡ err unexpected_eof)
unfolding read_full
read_full_short n [] h = inl (ground arith, ground arith)
read_full_short n (x ∷ s) h = inr (ground arith)
