-- ===== src/Sieve/Response/Sync.antt =====
-- `read_response` of managesieve.rs on the responses that a server writes.
use thundercrab.Prelude.{
  ℕ, zero, suc, ◌+◌, ◌<◌, ◌^◌, ◌≡◌, ◌≢◌, All-append, refl, ap, ◌∙◌, Bool, true, false, ◌&&◌, ltb,
  Text, none, some, List, [], ◌∷◌, ◌++◌, ok, length, length-append, ◌==◌, if◌then◌else◌, arith, All,
}
use thundercrab.Prelude.Strings.{Bytes, trim_end_by, trim_end_by_of_kept}
use thundercrab.Sieve.Reader.{Reader, Consumes, Delivers, IsLine, end_line}
use thundercrab.Sieve.Response.{
  Reply, is_line_end, parse_literal_marker, terminator, continue, drain, handle_line, round,
  read_rounds, read_response,
}
use thundercrab.Sieve.Response.Lines.{
  IsMiddle, IsUnmarked, Ending, ending_text, answer, terminator_of_IsMiddle, terminator-ending_text,
  parse_literal_marker_of_IsUnmarked,
}
use thundercrab.Sieve.Response.Marker.{marker, parse_literal_marker-marker}
use thundercrab.Prelude.Decimal.{show, IsDigit, decimal-IsDigit}
use thundercrab.Sieve.Response.Total.{read_rounds-eq}

unfoldable pub is_line : Text → Bool
is_line [] = true
is_line (c ∷ s) = ltb c 128 && (if is_line_end c then false else is_line s)

pub IsLine-of_test : (s : Text) → is_line s ≡ true → IsLine s
unfolding is_line
IsLine-of_test [] h = tt
IsLine-of_test (c ∷ s) h =
    ((ground arith, (λ e. ground arith), (λ e. ground arith)), IsLine-of_test s (ground arith))

-- What a server writes before the end of a response: a line, or a line that announces a literal, its
-- bytes and what ends that line.
pub data Part : Type 0 where
  line : Text → Part
  literal : (before : Text) → (plus : Bool) → (body : Bytes) → (trailer : Text) → Part

abbrev pub part_bytes : Part → Bytes → Bytes
part_bytes (line s) rest = end_line s rest
part_bytes (literal before plus body trailer) rest =
    end_line (before ++ marker (length body) plus) (body ++ end_line trailer rest)

abbrev pub response_bytes : List Part → Text → Bytes → Bytes
response_bytes [] last rest = end_line last rest
response_bytes (p ∷ ps) last rest = part_bytes p (response_bytes ps last rest)

-- A line does not begin with a word that ends a response, and announces nothing; a literal is announced
-- by its length, whatever stands before that.
abbrev pub IsPart : Part → Type 0
IsPart (line s) = IsLine s × IsUnmarked s × IsMiddle s
IsPart (literal before plus body trailer) = IsLine before × (length body < 2 ^ 64) × IsLine trailer

abbrev IsPlain : ℕ → Type 0
IsPlain c = (c < 128) × (c ≢ 13) × (c ≢ 10)

digits-IsLine : (s : Text) → All IsDigit s → IsLine s
digits-IsLine [] h = tt
digits-IsLine (c ∷ s) h = (
  (omega (arith, h.0.1), (λ e. omega (arith, e, h.0.0)), (λ e. omega (arith, e, h.0.0))),
  digits-IsLine s h.1,
)

IsLine-marker : (n : ℕ) (plus : Bool) → IsLine (marker n plus)
unfolding is_line
IsLine-marker n true = (
  (IsLine-of_test (b'{' ∷ []) refl).0,
  All-append IsPlain (show n) _ (digits-IsLine (show n) (decimal-IsDigit 20 n))
      (IsLine-of_test (b'+' ∷ b'}' ∷ []) refl),
)
IsLine-marker n false = (
  (IsLine-of_test (b'{' ∷ []) refl).0,
  All-append IsPlain (show n) _ (digits-IsLine (show n) (decimal-IsDigit 20 n))
      (IsLine-of_test (b'}' ∷ []) refl),
)

announced :
    (before : Text) (plus : Bool) (body : Bytes)
    → IsLine before
    → IsLine (before ++ marker (length body) plus)
announced before plus body h =
    All-append IsPlain before (marker (length body) plus) h (IsLine-marker (length body) plus)

kept : (s : Text) → IsLine s → All (λ c. is_line_end c ≡ false) s
kept [] h = tt
kept (c ∷ s) h = (ground (arith, h.0.1, h.0.2), kept s h.1)

trim-end_line : (s : Text) → IsLine s → trim_end_by is_line_end (end_line s []) ≡ s
unfolding trim_end_by
trim-end_line s h = trim_end_by_of_kept is_line_end s (13 ∷ 10 ∷ []) (kept s h) refl

length-end_line : (s : Text) (rest : Bytes) → length (end_line s rest) ≡ length s + 2 + length rest
length-end_line s rest = omega (arith, length-append {0} s (13 ∷ 10 ∷ rest))

module _ {R : Type 0} (reader : Reader R) (holding : Bytes → R)
    (delivers : Delivers reader holding) where
  round-end_line :
      (s : Text) (rest : Bytes)
      → IsLine s
      → round reader (holding (end_line s rest)) ≡ handle_line reader s (holding rest)
  unfolding round
  round-end_line s rest h =
      let some_bytes : (length (end_line s []) == 0) ≡ false =
        ground (arith, length-end_line s []) in
      let e = delivers.line s rest h in
      rw (ap (λ x. x.0) e, some_bytes, trim-end_line s h, ap (λ x. x.1) e, round) refl

  drain_literal :
      (body : Bytes) (trailer : Text) (rest : Bytes)
      → IsLine trailer
      → drain reader (length body) (holding (body ++ end_line trailer rest))
        ≡ continue (holding rest)
  unfolding drain
  drain_literal body trailer rest h =
      let b = delivers.exact body (end_line trailer rest) in
      let e = delivers.line trailer rest h in
      rw (ap (λ x. x.0) b, ap (λ x. x.1) b, ap (λ x. x.0) e, drain)
        (ap (λ x. continue (reader.read_line x).1) (ap (λ x. x.1) b) ∙ ap (λ x. continue x.1) e)

  -- A part takes one round, which leaves what stands behind it.
  round-part :
      (p : Part) (rest : Bytes)
      → IsPart p
      → round reader (holding (part_bytes p rest)) ≡ continue (holding rest)
  unfolding handle_line
  round-part (line s) rest h =
      let unmarked = parse_literal_marker_of_IsUnmarked s h.1 in
      let middle = terminator_of_IsMiddle s h.2 in
      round-end_line s rest h.0 ∙ rw (unmarked, middle, handle_line) refl
  round-part (literal before plus body trailer) rest h =
      let header = before ++ marker (length body) plus in
      round-end_line header (body ++ end_line trailer rest) (announced before plus body h.0)
      ∙ rw (parse_literal_marker-marker before (length body) plus h.1, handle_line)
          (drain_literal body trailer rest h.2)

  read_rounds-response :
      (fuel : ℕ) (ps : List Part) (last : Text) (rest : Bytes) (r : Reply)
      → length ps < fuel
      → All IsPart ps
      → IsLine last
      → parse_literal_marker last ≡ none
      → terminator last ≡ some r
      → read_rounds fuel reader (holding (response_bytes ps last rest)) ≡ some (ok r, holding rest)
  unfolding handle_line read_rounds
  read_rounds-response zero ps last rest r f h l n t = absurd (omega arith)
  read_rounds-response (suc fuel) [] last rest r f h l n t =
      rw (round-end_line last rest l, n, t, read_rounds) refl
  read_rounds-response (suc fuel) (p ∷ ps) last rest r f h l n t =
      rw (round-part p (response_bytes ps last rest) h.0, read_rounds)
        (read_rounds-response fuel ps last rest r (omega arith) h.1 l n t)

-- Reading stays in step with the server: behind any lines that do not begin with OK, NO or BYE, and any
-- literals that are announced by their length, whatever bytes these hold, `read_response` answers the
-- line that ends the response (OK; or NO or BYE with the trimmed reason) and leaves exactly the bytes
-- that follow it. The lines and the ending line are ASCII, nowhere in them do braces hold only digits
-- and plus signs, and the reader keeps to its documentation.
pub read_response-response_bytes :
    {R : Type 0} (reader : Reader R) (holding : Bytes → R) (ps : List Part) (last : Ending)
    (rest : Bytes)
    → Consumes reader
    → Delivers reader holding
    → All IsPart ps
    → IsLine (ending_text last)
    → IsUnmarked (ending_text last)
    → read_response reader (holding (response_bytes ps (ending_text last) rest))
      ≡ (ok (answer last), holding rest)
read_response-response_bytes reader holding ps last rest consumes delivers h l n =
    let s = holding (response_bytes ps (ending_text last) rest) in
    let fuel = suc (length ps + reader.left s) in
    let counted = read_rounds-eq fuel reader consumes s (omega arith) in
    let read =
      read_rounds-response reader holding delivers fuel ps (ending_text last) rest (answer last)
        (omega arith) h l (parse_literal_marker_of_IsUnmarked (ending_text last) n)
        (terminator-ending_text last) in
    ground (arith, counted, read)
