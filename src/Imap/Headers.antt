-- ===== src/Imap/Headers.antt =====
-- `parse_headers` and `push_if_relevant` of thundercrab-imap/src/rust_imap.rs.
pub mod Other
pub mod Unfold
use thundercrab.Prelude.{
  ℕ, Bool, true, false, ◌||◌, Text, codes, text_eq, ascii_lower, Option, none, some, List, [], ◌∷◌,
  ◌++◌, ◌==◌, map, if◌then◌else◌,
}
use thundercrab.Prelude.Strings.{
  is_empty, is_whitespace, trim, trim_start_by, trim_end_by, split_once, Bytes,
}

abbrev pub Header : Type 0
Header = Text × Text

abbrev pub to_first : ℕ → List Text → List Text
to_first c [] = (c ∷ []) ∷ []
to_first c (line ∷ lines) = (c ∷ line) ∷ lines

-- `str::split`: the pieces between the occurrences of a character.
unfoldable pub split : ℕ → Text → List Text
split d [] = [] ∷ []
split d (c ∷ s) = let rest = split d s in if c == d then [] ∷ rest else to_first c rest

unfoldable pub push_if_relevant : List Header → Text → Text → List Header
push_if_relevant acc name value =
    if text_eq name (codes "from") || text_eq name (codes "subject")
    then acc
    else acc ++ ((name, value) ∷ [])

-- The header that is being read, pushed if there is one.
abbrev pub flush : List Header → Option Header → List Header
flush acc none = acc
flush acc (some (name, value)) = push_if_relevant acc name value

abbrev pub starts_folded : Text → Bool
starts_folded [] = false
starts_folded (c ∷ line) = c == b' ' || c == b'\t'

abbrev pub fold_on : Option Header → Text → Option Header
fold_on none line = none
fold_on (some (name, value)) line = some (name, value ++ (b' ' ∷ trim_start_by is_whitespace line))

abbrev pub begin : Option (Text × Text) → Option Header
begin none = none
begin (some (name, value)) = some (map ascii_lower (trim name), trim value)

abbrev pub is_cr : ℕ → Bool
is_cr c = c == b'\r'

-- What a line that is not blank does to the headers so far and the one that is being read.
unfoldable pub take_line : List Header → Option Header → Text → List Header × Option Header
take_line acc current line =
    if starts_folded line
    then (acc, fold_on current line)
    else (flush acc current, begin (split_once b':' line))

unfoldable pub parse_lines : List Header → Option Header → List Text → List Header
parse_lines acc current [] = flush acc current
parse_lines acc current (raw ∷ lines) =
    let line = trim_end_by is_cr raw in
    let (pushed, next) = take_line acc current line in
    let rest = parse_lines pushed next lines in if is_empty line then flush acc current else rest

-- The decoder is `String::from_utf8_lossy`.
unfoldable pub parse_headers : (Bytes → Text) → Bytes → List Header
parse_headers lossy raw = parse_lines [] none (split b'\n' (lossy raw))
