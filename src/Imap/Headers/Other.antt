-- ===== src/Imap/Headers/Other.antt =====
-- `parse_headers` of rust_imap.rs: which headers it returns.
use thundercrab.Prelude.{
  ◌≡◌, ◌≢◌, false, Text, codes, text_eq, text_eq_iff, ascii_lower, map-ascii_lower_idem, Option,
  none, some, List, [], ◌∷◌, map, All, All-append, arith, Bool-cases, inl, inr,
}
use thundercrab.Prelude.Strings.{is_empty, trim, trim_end_by, split_once, Bytes}
use thundercrab.Imap.Headers.{
  Header, split, push_if_relevant, flush, starts_folded, fold_on, begin, is_cr, take_line,
  parse_lines, parse_headers,
}

-- A header that `MessageHeaders` has no field for, with its name in lower case.
abbrev pub IsOther : Header → Type 0
IsOther (name, value) =
    (name ≢ codes "from") × (name ≢ codes "subject") × (map ascii_lower name ≡ name)

-- The name that is being read is in lower case.
abbrev IsLower : Option Header → Type 0
IsLower none = Unit
IsLower (some (name, value)) = map ascii_lower name ≡ name

text_ne : (a b : Text) → text_eq a b ≡ false → a ≢ b
text_ne a b h e = ground (arith, text_eq_iff a b)

flush-IsOther :
    (acc : List Header) (current : Option Header)
    → All IsOther acc
    → IsLower current
    → All IsOther (flush acc current)
unfolding push_if_relevant
flush-IsOther acc none h l = h
flush-IsOther acc (some (name, value)) h l = elim (Bool-cases (text_eq name (codes "from"))) [
  | inl e ↦ rw (e) h
  | inr ne ↦ elim (Bool-cases (text_eq name (codes "subject"))) [
    | inl e ↦ rw (ne, e) h
    | inr nes ↦
        rw (ne, nes)
          (All-append IsOther acc ((name, value) ∷ []) h
            ((text_ne name (codes "from") ne, text_ne name (codes "subject") nes, l), tt))
  ]
]

fold_on-IsLower :
    (current : Option Header) (line : Text) → IsLower current → IsLower (fold_on current line)
fold_on-IsLower none line l = tt
fold_on-IsLower (some (name, value)) line l = l

begin-IsLower : (parts : Option (Text × Text)) → IsLower (begin parts)
begin-IsLower none = tt
begin-IsLower (some (name, value)) = map-ascii_lower_idem (trim name)

take_line-IsOther :
    (acc : List Header) (current : Option Header) (line : Text)
    → All IsOther acc
    → IsLower current
    → All IsOther (take_line acc current line).0 × IsLower (take_line acc current line).1
unfolding take_line
take_line-IsOther acc current line h l = elim (Bool-cases (starts_folded line)) [
  | inl e ↦ rw (e) (h, fold_on-IsLower current line l)
  | inr e ↦ rw (e) (flush-IsOther acc current h l, begin-IsLower (split_once b':' line))
]

parse_lines-IsOther :
    (acc : List Header) (current : Option Header) (lines : List Text)
    → All IsOther acc
    → IsLower current
    → All IsOther (parse_lines acc current lines)
unfolding parse_lines
parse_lines-IsOther acc current [] h l = flush-IsOther acc current h l
parse_lines-IsOther acc current (raw ∷ lines) h l =
    let line = trim_end_by is_cr raw in
    let (h', l') = take_line-IsOther acc current line h l in
    elim (Bool-cases (is_empty line)) [
      | inl e ↦ rw (e) (flush-IsOther acc current h l)
      | inr e ↦ rw (e) (
          parse_lines-IsOther (take_line acc current line).0 (take_line acc current line).1 lines h'
            l')
    ]

-- Whatever bytes a server sends for the headers of a message, `parse_headers` returns no header named
-- `from` or `subject`, and every name that it returns is in lower case.
pub parse_headers-IsOther :
    (lossy : Bytes → Text) (raw : Bytes) → All IsOther (parse_headers lossy raw)
unfolding parse_headers
parse_headers-IsOther lossy raw = parse_lines-IsOther [] none (split b'\n' (lossy raw)) tt tt
