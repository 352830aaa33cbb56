-- ===== src/Sieve/Tests/Stream.antt =====
-- A reader over a list of bytes, which has the documented properties: the one that the runs use.
use thundercrab.Prelude.{
  ℕ, suc, ◌+◌, ◌≤◌, ◌<◌, ◌≡◌, refl, true, Text, codes, Option, none, some, [], ◌∷◌, ◌++◌, any, drop,
  length, length-append, Result, ok, err, leb, ◌==◌, if◌then◌else◌, arith, All,
}
use thundercrab.Prelude.Strings.{Bytes}
use thundercrab.Sieve.Reader.{Reader, Consumes, Delivers, IsLine, end_line}

-- The bytes that come, and how the connection ends behind them: it is closed, or fails with a
-- message.
pub record Input : Type 0 where
  pub bytes : Bytes
  pub failure : Option Text

-- `String::from_utf8`, which is not in this repository: the characters of valid bytes.
abbrev pub Utf8 : Type 0
Utf8 = Bytes → Option Text

-- The bytes up to the first line feed and including it, and the others.
unfoldable pub split_line : Bytes → Bytes × Bytes
split_line [] = ([], [])
split_line (b ∷ bytes) =
    let (line, rest) = split_line bytes in if b == b'\n' then (b ∷ [], bytes) else (b ∷ line, rest)

-- A line that was read, with the number of its bytes.
abbrev pub decoded : Utf8 → Bytes → Result (ℕ × Text) Text
decoded utf8 line = elim (utf8 line) [
  | some text ↦ ok (length line, text)
  | none ↦ err (codes "stream did not contain valid UTF-8")
]

unfoldable pub read_line : Utf8 → Input → Result (ℕ × Text) Text × Input
read_line utf8 s =
    let (line, rest) = split_line s.bytes in
    let whole : Result (ℕ × Text) Text × Input = (decoded utf8 line, record s { bytes = rest }) in
    if any (λ b. b == b'\n') s.bytes
    then whole
    else elim s.failure [ none ↦ whole | some e ↦ (err e, record s { bytes = rest }) ]

abbrev pub early : Option Text → Text
early none = codes "early eof"
early (some e) = e

-- `read_exact` with a buffer of `n` bytes.
unfoldable pub read_exact : ℕ → Input → Result (Unit {0}) Text × Input
read_exact n s =
    if leb n (length s.bytes)
    then (ok tt, record s { bytes = drop n s.bytes })
    else (err (early s.failure), record s { bytes = [] })

length-split_line :
    (bytes : Bytes) → length (split_line bytes).0 + length (split_line bytes).1 ≡ length bytes
unfolding split_line
length-split_line [] = omega arith
length-split_line (b ∷ bytes) = ground (arith, length-split_line bytes)

-- A line takes the bytes that it counts.
pub length-read_line :
    (utf8 : Utf8) (s : Input) (n : ℕ) (text : Text)
    → (read_line utf8 s).0 ≡ ok (n, text)
    → length (read_line utf8 s).1.bytes + n ≡ length s.bytes
unfolding read_line
length-read_line utf8 s n text h = ground (arith, length-split_line s.bytes)

pub length-read_line_le :
    (utf8 : Utf8) (s : Input) → length (read_line utf8 s).1.bytes ≤ length s.bytes
unfolding read_line
length-read_line_le utf8 s = ground (arith, length-split_line s.bytes)

length-drop : (n : ℕ) (bytes : Bytes) → length (drop n bytes) ≤ length bytes
length-drop ℕ.zero bytes = omega arith
length-drop (suc n) [] = omega arith
length-drop (suc n) (b ∷ bytes) = omega (arith, length-drop n bytes)

pub length-read_exact : (n : ℕ) (s : Input) → length (read_exact n s).1.bytes ≤ length s.bytes
unfolding read_exact
length-read_exact n s = ground (arith, length-drop n s.bytes)

-- The decoder takes ASCII bytes for what they are.
abbrev pub DecodesAscii : Utf8 → Type 0
DecodesAscii utf8 = (bytes : Bytes) → All (λ b. b < 128) bytes → utf8 bytes ≡ some bytes

split_line-end_line :
    (s : Text) (rest : Bytes) → IsLine s → split_line (end_line s rest) ≡ (end_line s [], rest)
unfolding split_line
split_line-end_line [] rest h = refl
split_line-end_line (c ∷ s) rest h = rw (split_line-end_line s rest h.1) (ground (arith, h.0.2))

has_line_end : (s : Text) (rest : Bytes) → any (λ b. b == b'\n') (end_line s rest) ≡ true
has_line_end [] rest = refl
has_line_end (c ∷ s) rest = rw (has_line_end s rest) (ground arith)

IsAscii-end_line : (s : Text) → IsLine s → All (λ b. b < 128) (end_line s [])
IsAscii-end_line [] h = omega arith
IsAscii-end_line (c ∷ s) h = (h.0.0, IsAscii-end_line s h.1)

module _ (utf8 : Utf8) (ascii : DecodesAscii utf8) (failure : Option Text) where
  abbrev input : Bytes → Input
  input bytes = record { bytes = bytes; failure = failure }

  decoded-end_line :
      (s : Text)
      → IsLine s
      → decoded utf8 (end_line s []) ≡ ok (length (end_line s []), end_line s [])
  decoded-end_line s h = ground (arith, ascii (end_line s []) (IsAscii-end_line s h))

  read_line-end_line :
      (s : Text) (rest : Bytes)
      → IsLine s
      → read_line utf8 (input (end_line s rest))
        ≡ (ok (length (end_line s []), end_line s []), input rest)
  unfolding read_line
  read_line-end_line s rest h =
      rw (split_line-end_line s rest h, has_line_end s rest, decoded-end_line s h) refl

  drop_body : (body rest : Bytes) → drop (length body) (body ++ rest) ≡ rest
  drop_body [] rest = refl
  drop_body (b ∷ body) rest = drop_body body rest

  read_exact-body :
      (body rest : Bytes) → read_exact (length body) (input (body ++ rest)) ≡ (ok tt, input rest)
  unfolding read_exact
  read_exact-body body rest =
      let enough : leb (length body) (length (body ++ rest)) ≡ true =
        ground (arith, length-append {0} body rest) in
      rw (enough, drop_body body rest) refl

abbrev pub over_bytes : Utf8 → Reader Input
over_bytes utf8 = record {
  read_line = read_line utf8;
  read_exact = read_exact;
  left = λ s. length s.bytes;
}

pub over_bytes-Consumes : (utf8 : Utf8) → Consumes (over_bytes utf8)
over_bytes-Consumes utf8 = record {
  line = λ s n text h. let e = length-read_line utf8 s n text h in omega (arith, e);
  line_le = length-read_line_le utf8;
  exact_le = length-read_exact;
}

pub over_bytes-Delivers :
    (utf8 : Utf8) (failure : Option Text)
    → DecodesAscii utf8
    → Delivers (over_bytes utf8) (λ bytes. record { bytes = bytes; failure = failure })
over_bytes-Delivers utf8 failure ascii = record {
  line = read_line-end_line utf8 ascii failure;
  exact = read_exact-body utf8 ascii failure;
}
