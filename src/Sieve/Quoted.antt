-- ===== src/Sieve/Quoted.antt =====
-- thundercrab-imap/src/managesieve.rs: `escape_quoted`, against a reader of quoted strings.
use thundercrab.Prelude.{
  ℕ, ◌≡◌, refl, Bool, true, false, Text, Option, none, some, [], ◌∷◌, ◌++◌, ◌==◌, if◌then◌else◌,
  arith, Bool-cases, inl, inr,
}

-- What is pushed for one character.
unfoldable pub escape_char : ℕ → Text
escape_char c =
    if c == b'"' then b'\\' ∷ b'"' ∷ [] else if c == b'\\' then b'\\' ∷ b'\\' ∷ [] else c ∷ []

unfoldable pub escape_quoted : Text → Text
escape_quoted [] = []
escape_quoted (c ∷ s) = escape_char c ++ escape_quoted s

-- Put a character before the string that was read.
abbrev pub before : ℕ → Option (Text × Text) → Option (Text × Text)
before c none = none
before c (some (s, rest)) = some (c ∷ s, rest)

-- Read a string up to its closing quote; `literal` after a backslash, which makes the next character
-- stand for itself. The result has the string and what follows the quote.
unfoldable pub read_quoted : (literal : Bool) → Text → Option (Text × Text)
read_quoted literal [] = none
read_quoted true (c ∷ s) = before c (read_quoted false s)
read_quoted false (c ∷ s) =
    let escaped = read_quoted true s in
    let plain = before c (read_quoted false s) in
    if c == b'"' then some ([], s) else if c == b'\\' then escaped else plain

-- A server that reads the escaped text and a quote after an opening quote gets back the text, and
-- stops at that quote.
pub read_quoted-escape_quoted :
    (s rest : Text) → read_quoted false (escape_quoted s ++ (b'"' ∷ rest)) ≡ some (s, rest)
unfolding escape_quoted read_quoted escape_char
read_quoted-escape_quoted [] rest = refl
read_quoted-escape_quoted (c ∷ s) rest =
    let later = read_quoted-escape_quoted s rest in
    elim (Bool-cases (c == b'"')) [
      | inl q ↦ rw (q, later) (ground arith)
      | inr n ↦ elim (Bool-cases (c == b'\\')) [
        | inl q ↦ rw (n, q, later) (ground arith)
        | inr m ↦ rw (n, m, n, m, later) refl
      ]
    ]
