-- ===== src/Sieve/Response.antt =====
-- thundercrab-imap/src/managesieve.rs: `parse_literal_marker` and `read_response`.
pub mod Total
pub mod Marker
pub mod Lines
pub mod Sync
use thundercrab.Prelude.{
  ℕ, zero, suc, ◌+◌, ◌-◌, ◌*◌, ◌^◌, ◌<◌, Bool, true, false, ◌||◌, ◌&&◌, Text, codes, Option, none,
  some, List, [], ◌∷◌, ◌++◌, Result, ok, err, ltb, leb, length, ◌==◌, if◌then◌else◌,
}
use thundercrab.Prelude.Strings.{is_whitespace, trim, trim_end_by, strip_prefix, split_last}
use thundercrab.Backend.{BackendError, transport}
use thundercrab.Sieve.Reader.{Reader}

-- `Response`
pub data Reply : Type 0 where
  okay : Reply
  no bye : (reason : Text) → Reply

-- The digits behind a number so far; each step is checked against `usize::MAX`.
unfoldable pub parse_digits : ℕ → Text → Option ℕ
parse_digits n [] = some n
parse_digits n (c ∷ s) =
    let m = n * 10 + (c - b'0') in
    let rest = parse_digits m s in
    if (leb b'0' c && leb c b'9') && ltb m (2 ^ 64) then rest else none

-- `str::parse::<usize>`: at least one digit, behind a plus sign or none.
unfoldable pub parse_usize : Text → Option ℕ
parse_usize [] = none
parse_usize (c ∷ []) = parse_digits 0 (c ∷ [])
parse_usize (c ∷ d ∷ s) = if c == b'+' then parse_digits 0 (d ∷ s) else parse_digits 0 (c ∷ d ∷ s)

abbrev pub is_plus : ℕ → Bool
is_plus c = c == b'+'

unfoldable pub parse_literal_marker : Text → Option ℕ
parse_literal_marker line = elim (split_last b'}' line) [
  | none ↦ none
  | some (head, after) ↦ elim (split_last b'{' head) [
    | none ↦ none
    | some (before, inner) ↦ parse_usize (trim_end_by is_plus inner)
  ]
]

abbrev pub is_line_end : ℕ → Bool
is_line_end c = c == b'\r' || c == b'\n'

-- The tests for the three terminators.
unfoldable pub terminator : Text → Option Reply
terminator trimmed = elim (strip_prefix (codes "OK") trimmed) [
  | some rest ↦ some okay
  | none ↦ elim (strip_prefix (codes "NO") trimmed) [
    | some rest ↦ some (no (trim rest))
    | none ↦ elim (strip_prefix (codes "BYE") trimmed) [
      | some rest ↦ some (bye (trim rest))
      | none ↦ none
    ]
  ]
]

-- One round of the loop: it returns, or goes on with the input that is left.
pub data Round (R : Type 0) : Type 0 where
  return : Result Reply BackendError → R → Round R
  continue : R → Round R

-- The body of a literal and the line behind it are read and dropped.
unfoldable pub drain : {R : Type 0} → Reader R → ℕ → R → Round R
drain reader n s =
    let (body, t) = reader.read_exact n s in
    elim body [
      | err e ↦ return (err (transport (codes "literal body: " ++ e))) t
      | ok u ↦
          let (trailer, rest) = reader.read_line t in
          elim trailer [
            | err e ↦ return (err (transport (codes "literal trailer: " ++ e))) rest
            | ok line ↦ continue rest
          ]
    ]

-- A line without its end.
unfoldable pub handle_line : {R : Type 0} → Reader R → Text → R → Round R
handle_line reader trimmed t = elim (parse_literal_marker trimmed) [
  | some n ↦ drain reader n t
  | none ↦ elim (terminator trimmed) [ some r ↦ return (ok r) t | none ↦ continue t ]
]

unfoldable pub round : {R : Type 0} → Reader R → R → Round R
round reader s =
    let (line, t) = reader.read_line s in
    elim line [
      | err e ↦ return (err (transport (codes "read: " ++ e))) t
      | ok (n, text) ↦
          if n == 0
          then return (err (transport (codes "eof"))) t
          else handle_line reader (trim_end_by is_line_end text) t
    ]

-- `none`: the rounds did not suffice.
unfoldable pub read_rounds :
    {R : Type 0} → ℕ → Reader R → R → Option (Result Reply BackendError × R)
read_rounds zero reader s = none
read_rounds (suc fuel) reader s = elim (round reader s) [
  | return r t ↦ some (r, t)
  | continue t ↦ read_rounds fuel reader t
]

abbrev pub finished :
    {R : Type 0} → Option (Result Reply BackendError × R) → R → Result Reply BackendError × R
finished (some x) s = x
finished none s = (err (transport (codes "eof")), s)

-- The loop, on one round for each byte that is still to come and one more.
unfoldable pub read_response : {R : Type 0} → Reader R → R → Result Reply BackendError × R
read_response reader s = finished (read_rounds (suc (reader.left s)) reader s) s
