-- ===== src/Hdc/Sync/Quote.antt =====
-- A quoted path is one word of the shell, whatever it holds.
use adb_tcp_bridge.Common.{
  ◌≡◌, refl, Option, none, some, [], ◌∷◌, ◌++◌, Bytes, ◌==◌, ==_iff, if◌then◌else◌, Bool-cases, inl,
  inr,
}
use adb_tcp_bridge.Hdc.Sync.{escape_quotes, shell_quote}

-- How the POSIX shell reads a word that is quoted throughout: outside quotes only a single quote, which
-- opens a quotation, and a backslash, which takes the next byte as it is, may stand; in a quotation
-- every byte stands for itself up to the next single quote.
pub data Mode : Type 0 where
  outside inside escaped : Mode

unfoldable pub shell_word : Mode → Bytes → Option Bytes
shell_word outside [] = some []
shell_word inside [] = none
shell_word escaped [] = none
shell_word outside (c ∷ cs) =
    if c == b'\'' then shell_word inside cs else if c == b'\\' then shell_word escaped cs else none
shell_word inside (c ∷ cs) =
    if c == b'\''
    then shell_word outside cs
    else elim (shell_word inside cs) [ none ↦ none | some word ↦ some (c ∷ word) ]
shell_word escaped (c ∷ cs) = elim (shell_word outside cs) [
  | none ↦ none
  | some word ↦ some (c ∷ word)
]

escape_quotes-shell_word :
    (value : Bytes) → shell_word inside (escape_quotes value ++ (b'\'' ∷ [])) ≡ some value
unfolding shell_word escape_quotes
escape_quotes-shell_word [] = refl
escape_quotes-shell_word (c ∷ cs) = elim (Bool-cases (c == b'\'')) [
  | inl e ↦
      let q : c ≡ b'\'' = (==_iff c b'\'').0 e in rw e (rw (escape_quotes-shell_word cs, q) refl)
  | inr e ↦ rw e (rw (e, escape_quotes-shell_word cs) refl)
]

-- The shell reads the quoted form of any path, whatever quotes and other special characters it has,
-- as one word that is that path, every byte of which is quoted.
pub shell_word-shell_quote : (value : Bytes) → shell_word outside (shell_quote value) ≡ some value
unfolding shell_quote shell_word
shell_word-shell_quote value = escape_quotes-shell_word value
