-- ===== src/Sieve/Response/Total.antt =====
-- `read_response` of managesieve.rs: the loop ends.
use thundercrab.Prelude.{
  ℕ, zero, suc, ◌≤◌, ◌<◌, ◌≡◌, refl, ◌∙◌, Text, some, Result, ◌==◌, arith, Bool-cases, Result-cases,
  Option-cases, ◌⊎◌, inl, inr,
}
use thundercrab.Prelude.Strings.{trim_end_by}
use thundercrab.Backend.{BackendError}
use thundercrab.Sieve.Reader.{Reader, Consumes}
use thundercrab.Sieve.Response.{
  Reply, is_line_end, parse_literal_marker, Round, return, continue, drain, handle_line, round,
  read_rounds, read_response,
}

drain_le :
    {R : Type 0} (reader : Reader R) (laws : Consumes reader) (n : ℕ) (s t : R)
    → drain reader n s ≡ continue t
    → reader.left t ≤ reader.left s
unfolding drain
drain_le reader laws n s t h =
    ground (arith, laws.exact_le n s, laws.line_le (reader.read_exact n s).1)

handle_line_le :
    {R : Type 0} (reader : Reader R) (laws : Consumes reader) (trimmed : Text) (s t : R)
    → handle_line reader trimmed s ≡ continue t
    → reader.left t ≤ reader.left s
unfolding handle_line
handle_line_le reader laws trimmed s t h = elim (Option-cases (parse_literal_marker trimmed)) [
  | inl e ↦ ground arith
  | inr (n, e) ↦ drain_le reader laws n s t (ground arith)
]

-- A round that goes on has consumed a byte.
round_lt :
    {R : Type 0} (reader : Reader R) (laws : Consumes reader) (s t : R)
    → round reader s ≡ continue t
    → reader.left t < reader.left s
unfolding round
round_lt reader laws s t h = elim (Result-cases (reader.read_line s).0) [
  | inr (e, q) ↦ absurd (ground arith)
  | inl ((n, text), q) ↦ elim (Bool-cases (n == 0)) [
    | inl z ↦ absurd (ground arith)
    | inr more ↦ ground (
      arith,
      laws.line s n text q,
      handle_line_le reader laws (trim_end_by is_line_end text) (reader.read_line s).1 t,
    )
  ]
]

Round-cases :
    {R : Type 0} (r : Round R)
    → ((a : Result Reply BackendError) × (t : R) × (r ≡ return a t)) ⊎ ((t : R) × (r ≡ continue t))
Round-cases (return a t) = inl (a, t, refl)
Round-cases (continue t) = inr (t, refl)

read_rounds_total :
    (fuel : ℕ) {R : Type 0} (reader : Reader R) (laws : Consumes reader) (s : R)
    → reader.left s < fuel
    → (x : Result Reply BackendError × R) × (read_rounds fuel reader s ≡ some x)
unfolding read_rounds
read_rounds_total zero reader laws s h = absurd (omega arith)
read_rounds_total (suc fuel) reader laws s h = elim (Round-cases (round reader s)) [
  | inl (a, t, e) ↦ ((a, t), rw (e, read_rounds) refl)
  | inr (t, e) ↦
      let (x, q) =
        read_rounds_total fuel reader laws t (omega (arith, round_lt reader laws s t e)) in
      (x, rw (e, read_rounds) q)
]

-- Two numbers of rounds that suffice give the same.
read_rounds_agree :
    (fuel other : ℕ) {R : Type 0} (reader : Reader R) (laws : Consumes reader) (s : R)
    → reader.left s < fuel
    → reader.left s < other
    → read_rounds fuel reader s ≡ read_rounds other reader s
unfolding read_rounds
read_rounds_agree zero other reader laws s h k = absurd (omega arith)
read_rounds_agree (suc fuel) zero reader laws s h k = absurd (omega arith)
read_rounds_agree (suc fuel) (suc other) reader laws s h k = elim (Round-cases (round reader s)) [
  | inl (a, t, e) ↦ rw (e, read_rounds) refl
  | inr (t, e) ↦
      let less = round_lt reader laws s t e in
      rw (e, read_rounds)
        (read_rounds_agree fuel other reader laws t (omega (arith, less)) (omega (arith, less)))
]

-- On every reader with finitely many bytes still to come, which gives none twice, the loop of
-- `read_response` ends: any number of rounds that is greater than their number suffices, and gives the
-- same answer and the same rest of the input.
pub read_rounds-eq :
    (fuel : ℕ) {R : Type 0} (reader : Reader R) (laws : Consumes reader) (s : R)
    → reader.left s < fuel
    → read_rounds fuel reader s ≡ some (read_response reader s)
unfolding read_response
read_rounds-eq fuel reader laws s h =
    let (x, e) = read_rounds_total (suc (reader.left s)) reader laws s (omega arith) in
    read_rounds_agree fuel (suc (reader.left s)) reader laws s h (omega arith) ∙ rw e refl
