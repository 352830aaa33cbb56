-- ===== src/Sieve/Reader.antt =====
-- The buffered reader of tokio that thundercrab-imap/src/managesieve.rs reads from, which is not in
-- this repository, with what its documentation says of `read_line` and `read_exact`.
use thundercrab.Prelude.{ℕ, ◌+◌, ◌≤◌, ◌<◌, ◌≡◌, ◌≢◌, Text, [], ◌∷◌, ◌++◌, length, Result, ok, All}
use thundercrab.Prelude.Strings.{Bytes}

-- A line with the number of its bytes; a buffer of a given size that is filled; and how many bytes are
-- still to come before the connection ends.
pub record Reader (R : Type 0) : Type 0 where
  pub read_line : R → Result (ℕ × Text) Text × R
  pub read_exact : ℕ → R → Result (Unit {0}) Text × R
  pub left : R → ℕ

-- What is read does not come again: a line takes the bytes that it counts, and no call adds any.
pub record Consumes {R : Type 0} (reader : Reader R) : Type 0 where
  pub line :
      (s : R) (n : ℕ) (text : Text)
      → (reader.read_line s).0 ≡ ok (n, text)
      → reader.left (reader.read_line s).1 + n ≤ reader.left s
  pub line_le : (s : R) → reader.left (reader.read_line s).1 ≤ reader.left s
  pub exact_le : (n : ℕ) (s : R) → reader.left (reader.read_exact n s).1 ≤ reader.left s

-- Characters of a line: ASCII, with no line end.
abbrev pub IsLine : Text → Type 0
IsLine s = All (λ c. (c < 128) × (c ≢ 13) × (c ≢ 10)) s

abbrev pub end_line : Text → Bytes → Bytes
end_line s rest = s ++ (13 ∷ 10 ∷ rest)

-- At a reader that holds given bytes: `read_line` returns a line of ASCII with its end, and
-- `read_exact` takes just the bytes asked for.
pub record Delivers {R : Type 0} (reader : Reader R) (holding : Bytes → R) : Type 0 where
  pub line :
      (s : Text) (rest : Bytes)
      → IsLine s
      → reader.read_line (holding (end_line s rest))
        ≡ (ok (length (end_line s []), end_line s []), holding rest)
  pub exact :
      (body rest : Bytes)
      → reader.read_exact (length body) (holding (body ++ rest)) ≡ (ok tt, holding rest)
