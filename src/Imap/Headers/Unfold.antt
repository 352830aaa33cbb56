-- ===== src/Imap/Headers/Unfold.antt =====
-- `parse_headers` of rust_imap.rs on the header blocks that RFC 5322 describes.
use mathlib.Core.List.{append_assoc, append-nil}
use thundercrab.Prelude.{
  ℕ, ◌≡◌, ◌≢◌, refl, sym, ap, ◌∙◌, false, ◌||◌, Text, codes, text_eq, ascii_lower, Option, none,
  some, List, [], ◌∷◌, ◌++◌, map, if◌then◌else◌, All, All-append, arith, Bool-cases, inl, inr,
}
use thundercrab.Prelude.Strings.{
  is_empty, is_whitespace, trim, trim_start_by, trim_end_by, trim_end_by_of_kept, split_once, Bytes,
}
use thundercrab.Imap.Headers.{
  Header, split, push_if_relevant, flush, starts_folded, is_cr, take_line, parse_lines,
  parse_headers,
}

-- A header as it is sent: its name, the first piece of its value, and the pieces that are folded onto
-- lines of their own.
pub record Field : Type 0 where
  pub name : Text
  pub first : Text
  pub more : List Text

abbrev pub crlf_line : Text → Text → Text
crlf_line s rest = s ++ (b'\r' ∷ b'\n' ∷ rest)

abbrev pub write_more : List Text → Text → Text
write_more [] rest = rest
write_more (s ∷ more) rest = crlf_line (b' ' ∷ s) (write_more more rest)

-- `Name: first`, and a line with a space in front for each further piece.
abbrev pub write_field : Field → Text → Text
write_field f rest = crlf_line (f.name ++ (b':' ∷ b' ' ∷ f.first)) (write_more f.more rest)

-- The fields, a blank line, and what follows it.
abbrev pub write_fields : List Field → Text → Text
write_fields [] rest = crlf_line [] rest
write_fields (f ∷ fs) rest = write_field f (write_fields fs rest)

-- The pieces joined by single spaces.
abbrev pub joined : Text → List Text → Text
joined value [] = value
joined value (s ∷ more) = joined (value ++ (b' ' ∷ s)) more

abbrev pub read_field : Field → Header
read_field f = (map ascii_lower f.name, joined f.first f.more)

-- The headers that are kept.
abbrev pub others : List Header → List Header
others [] = []
others ((name, value) ∷ hs) =
    if text_eq name (codes "from") || text_eq name (codes "subject")
    then others hs
    else (name, value) ∷ others hs

-- Text of one line.
abbrev pub IsPiece : Text → Type 0
IsPiece s = All (λ c. (c ≢ b'\r') × (c ≢ b'\n')) s

-- A name is not empty, holds no colon and no white space at its ends; a value has no white space at
-- its ends, and a folded piece none at its start.
abbrev pub IsField : Field → Type 0
IsField f =
    IsPiece f.name
    × All (λ c. c ≢ b':') f.name
    × (is_empty f.name ≡ false)
    × (starts_folded f.name ≡ false)
    × (trim f.name ≡ f.name)
    × IsPiece f.first
    × (trim (b' ' ∷ f.first) ≡ f.first)
    × All (λ s. IsPiece s × (trim_start_by is_whitespace (b' ' ∷ s) ≡ s)) f.more

split-crlf_line :
    (s rest : Text)
    → IsPiece s
    → split b'\n' (crlf_line s rest) ≡ (s ++ (b'\r' ∷ [])) ∷ split b'\n' rest
unfolding split
split-crlf_line [] rest h = refl
split-crlf_line (c ∷ s) rest h = rw (split-crlf_line s rest h.1) (ground (arith, h.0.1))

kept_piece : (s : Text) → IsPiece s → All (λ c. is_cr c ≡ false) s
kept_piece [] h = tt
kept_piece (c ∷ s) h = (ground (arith, h.0.0), kept_piece s h.1)

trim-piece : (s : Text) → IsPiece s → trim_end_by is_cr (s ++ (b'\r' ∷ [])) ≡ s
unfolding trim_end_by
trim-piece s h = trim_end_by_of_kept is_cr s (b'\r' ∷ []) (kept_piece s h) refl

parse_lines-crlf_line :
    (acc : List Header) (current : Option Header) (s rest : Text)
    → IsPiece s
    → is_empty s ≡ false
    → parse_lines acc current (split b'\n' (crlf_line s rest))
      ≡ parse_lines (take_line acc current s).0 (take_line acc current s).1 (split b'\n' rest)
unfolding parse_lines
parse_lines-crlf_line acc current s rest h e = rw (split-crlf_line s rest h, trim-piece s h, e) refl

parse_lines-write_more :
    (acc : List Header) (name value : Text) (more : List Text) (rest : Text)
    → All (λ s. IsPiece s × (trim_start_by is_whitespace (b' ' ∷ s) ≡ s)) more
    → parse_lines acc (some (name, value)) (split b'\n' (write_more more rest))
      ≡ parse_lines acc (some (name, joined value more)) (split b'\n' rest)
unfolding take_line
parse_lines-write_more acc name value [] rest h = refl
parse_lines-write_more acc name value (s ∷ more) rest h =
    parse_lines-crlf_line acc (some (name, value)) (b' ' ∷ s) (write_more more rest)
      ((λ e. omega (arith, e), λ e. omega (arith, e)), h.0.0) refl
    ∙ rw (h.0.1) (parse_lines-write_more acc name (value ++ (b' ' ∷ s)) more rest h.1)

split_once-append :
    (d : ℕ) (a b : Text) → All (λ c. c ≢ d) a → split_once d (a ++ (d ∷ b)) ≡ some (a, b)
unfolding split_once
split_once-append d [] b h = ground arith
split_once-append d (c ∷ a) b h = rw (split_once-append d a b h.1) (ground (arith, h.0))

unfolded_start :
    (name rest : Text)
    → is_empty name ≡ false
    → starts_folded name ≡ false
    → starts_folded (name ++ rest) ≡ false
unfolded_start [] rest e s = cc
unfolded_start (c ∷ name) rest e s = s

take_line-field :
    (acc : List Header) (current : Option Header) (f : Field)
    → IsField f
    → take_line acc current (f.name ++ (b':' ∷ b' ' ∷ f.first))
      ≡ (flush acc current, some (map ascii_lower f.name, f.first))
unfolding take_line
take_line-field acc current f (piece, no_colon, e, start, tight, first, value, more) =
    rw
      (
        unfolded_start f.name (b':' ∷ b' ' ∷ f.first) e start,
        split_once-append b':' f.name (b' ' ∷ f.first) no_colon,
        tight,
        value,
      )
      refl

is_empty-name : (name : Text) (c : ℕ) (rest : Text) → is_empty (name ++ (c ∷ rest)) ≡ false
is_empty-name [] c rest = refl
is_empty-name (d ∷ name) c rest = refl

parse_lines-write_field :
    (acc : List Header) (current : Option Header) (f : Field) (rest : Text)
    → IsField f
    → parse_lines acc current (split b'\n' (write_field f rest))
      ≡ parse_lines (flush acc current) (some (read_field f)) (split b'\n' rest)
parse_lines-write_field acc current f rest h =
    let text = f.name ++ (b':' ∷ b' ' ∷ f.first) in
    let below = split b'\n' (write_more f.more rest) in
    parse_lines-crlf_line acc current text (write_more f.more rest)
      (All-append (λ c. (c ≢ b'\r') × (c ≢ b'\n')) f.name (b':' ∷ b' ' ∷ f.first) h.0
        (
          (λ e. omega (arith, e), λ e. omega (arith, e)),
          ((λ e. omega (arith, e), λ e. omega (arith, e)), h.5),
        ))
      (is_empty-name f.name b':' (b' ' ∷ f.first))
    ∙ ap (λ x. parse_lines x.0 x.1 below) (take_line-field acc current f h)
    ∙ parse_lines-write_more (flush acc current) (map ascii_lower f.name) f.first f.more rest h.7

flush-some :
    (acc hs : List Header) (h : Header) → flush acc (some h) ++ others hs ≡ acc ++ others (h ∷ hs)
unfolding push_if_relevant
flush-some acc hs (name, value) =
    elim (Bool-cases (text_eq name (codes "from") || text_eq name (codes "subject"))) [
      | inl e ↦ rw (e) refl
      | inr e ↦ rw (e) (append_assoc acc ((name, value) ∷ []) (others hs))
    ]

parse_lines-write_fields :
    (acc : List Header) (current : Option Header) (fs : List Field) (rest : Text)
    → All IsField fs
    → parse_lines acc current (split b'\n' (write_fields fs rest))
      ≡ flush acc current ++ others (map read_field fs)
unfolding parse_lines trim_end_by
parse_lines-write_fields acc current [] rest h =
    rw (split-crlf_line [] rest tt) (sym (append-nil (flush acc current)))
parse_lines-write_fields acc current (f ∷ fs) rest h =
    parse_lines-write_field acc current f (write_fields fs rest) h.0
    ∙ parse_lines-write_fields (flush acc current) (some (read_field f)) fs rest h.1
    ∙ flush-some (flush acc current) (map read_field fs) (read_field f)

-- A header block that is written line by line, with values folded anywhere, is read back: the result
-- is the headers in order, names in lower case and the pieces of a value joined by single spaces, but
-- for `from` and `subject`; whatever follows the blank line does not matter. Names hold no colon and
-- no line end, and neither names nor pieces have white space at the ends that are trimmed.
pub parse_headers-write_fields :
    (lossy : Bytes → Text) (raw : Bytes) (fs : List Field) (rest : Text)
    → All IsField fs
    → lossy raw ≡ write_fields fs rest
    → parse_headers lossy raw ≡ others (map read_field fs)
unfolding parse_headers
parse_headers-write_fields lossy raw fs rest h e =
    ap (λ s. parse_lines [] none (split b'\n' s)) e ∙ parse_lines-write_fields [] none fs rest h
