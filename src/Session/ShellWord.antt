-- ===== src/Session/ShellWord.antt =====
-- How a POSIX shell reads the quoted path of a staged command: a word of single-quoted and
-- double-quoted parts, up to a byte that ends it.
use sandkasten.Base.{
  ℕ, ◌≡◌, Bool, true, ◌||◌, Option, none, some, [], ◌∷◌, ◌++◌, append-nil, append_assoc, arith,
  ◌==◌, if◌then◌else◌,
}
use sandkasten.Base.Text.{Bytes}
use sandkasten.Session.Shell.{replace_quotes, shell_single_quote}

-- Outside quotes, inside '…', and inside "…".
pub data Mode : Type 0 where
  plain single double : Mode

-- A blank, a line feed or an operator ends the word. No other byte but the quotes has a meaning in
-- the words that this reads: it fails at any byte that would need another rule.
unfoldable pub is_end : ℕ → Bool
is_end c = c == b' ' || c == b';' || c == 10

-- The word that the text begins with, behind what was read of it, and the rest of the text.
pub word : Mode → Bytes → Bytes → Option (Bytes × Bytes)
word plain out [] = some (out, [])
word single out [] = none
word double out [] = none
word plain out (c ∷ s) =
    let quote = word single out s in
    let quotes = word double out s in
    if c == b'\''
    then quote
    else if c == b'"'
    then quotes
    else if is_end c
    then some (out, c ∷ s)
    else none
word single out (c ∷ s) =
    let close = word plain out s in
    let more = word single (out ++ c ∷ []) s in if c == b'\'' then close else more
word double out (c ∷ s) =
    let close = word plain out s in
    let more = word double (out ++ c ∷ []) s in
    if c == b'"' then close else if c == b'$' || c == b'`' || c == b'\\' then none else more

-- Ends of words: nothing follows, or a byte that ends them.
unfoldable pub ends_word : Bytes → Bool
ends_word [] = true
ends_word (c ∷ s) = is_end c

word-replace_quotes :
    (s out rest : Bytes)
    → ends_word rest ≡ true
    → word single out (replace_quotes s ++ b'\'' ∷ rest) ≡ some (out ++ s, rest)
unfolding word replace_quotes is_end ends_word
word-replace_quotes [] out [] h = rw append-nil
word-replace_quotes [] out (c ∷ rest) h = ground (arith, append-nil out)
word-replace_quotes (c ∷ s) out rest h =
    ground (arith, word-replace_quotes s (out ++ c ∷ []) rest h, append_assoc out (c ∷ []) s)

-- The shell reads the quoted text back as one word, byte for byte, whatever the text is: quotes,
-- blanks, dollar signs and separators in it have no effect.
pub word-shell_single_quote :
    (s rest : Bytes)
    → ends_word rest ≡ true
    → word plain [] (shell_single_quote s ++ rest) ≡ some (s, rest)
unfolding shell_single_quote
word-shell_single_quote s rest h =
    rw append_assoc (unfold word in ground (arith, word-replace_quotes s [] rest h))
