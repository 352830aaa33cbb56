-- ===== src/Ledger/Api/Lasting.antt =====
-- crates/crab-ledger: what the table keeps of a pattern, whatever is submitted later.
use mathlib.Core.List.{Memᴰ}
use mathlib.Core.List.Memᴰ
use mathlib.Core.Path.{subst}
use thundercrab.Prelude.{
  ◌≤◌, ◌≡◌, ◌≢◌, ◌⊎◌, refl, sym, ap, ◌∙◌, Bool, none, List, [], ◌∷◌, map, arith, All, Bool-cases,
  inl, inr,
}
use thundercrab.Prelude.Int.{pos, ◌≤ℤ◌}
use thundercrab.Prelude.Eq.{same, same_iff, text_same, pair_same, distinct, All-filter, mem-filter}
use thundercrab.Prelude.Sql.{Fault}
use thundercrab.Prelude.Hex.{hex}
use thundercrab.Signing.Wire.{Bytes, Crypto, Serde}
use thundercrab.Ledger.Store.{
  CorroborationRow, AggregatedSuggestion, key, on_conflict, upsert_row, members, count_public_keys,
  listing, as_suggestion, i64_min,
}
use thundercrab.Ledger.Store.Complete.{listing_complete}
use thundercrab.Ledger.Api.{AppState, handle_submit}
use thundercrab.Ledger.Api.State.{
  Governor, Encoder, StatusCode, ok_status, accepted, bad_request, too_many_requests,
  internal_server_error, Response, SubmitEnvelope,
}
use thundercrab.Ledger.Api.Submit.{handle_submit-refused}
use thundercrab.Ledger.Api.History.{accepted-rows}

-- The day is a 64-bit integer's.
abbrev pub IsDay : CorroborationRow → Type 0
IsDay row = i64_min ≤ℤ row.submitted_day

mem-upsert_row :
    (row : CorroborationRow) (rows : List CorroborationRow)
    → (r : CorroborationRow) × Memᴰ r (upsert_row row rows) × (r.pattern_hash ≡ row.pattern_hash)
unfolding upsert_row
mem-upsert_row row [] = (row, Memᴰ.head refl, refl)
mem-upsert_row row (r ∷ rows) = elim (Bool-cases (same (key r) (key row))) [
  | inl t ↦ rw t (_, Memᴰ.head refl, ap (λ k. k.0) ((same_iff (key r) (key row)).0 t))
  | inr f ↦ let (x, m, e) = mem-upsert_row row rows in rw f (x, Memᴰ.tail m, e)
]

one_key :
    (r : CorroborationRow) (rows : List CorroborationRow) → Memᴰ r rows → 1 ≤ count_public_keys rows
unfolding count_public_keys distinct
one_key r [] m = elim m [ ]
one_key r (x ∷ rows) m = omega arith

earlier : (old row : CorroborationRow) → IsDay row → IsDay old → IsDay (on_conflict old row)
earlier old row h k = ground arith

upsert_row-IsDay :
    (row : CorroborationRow) (rows : List CorroborationRow)
    → IsDay row
    → All IsDay rows
    → All IsDay (upsert_row row rows)
unfolding upsert_row
upsert_row-IsDay row [] h k = (h, tt)
upsert_row-IsDay row (r ∷ rows) h k = elim (Bool-cases (same (key r) (key row))) [
  | inl t ↦ rw t (earlier r row h k.0, k.1)
  | inr f ↦ rw f (k.0, upsert_row-IsDay row rows h k.1)
]

-- A row of the pattern is in the table, and all days are 64-bit integers.
abbrev pub Holds : Bytes → List CorroborationRow → Type 0
Holds h rows = ((r : CorroborationRow) × Memᴰ r rows × (r.pattern_hash ≡ h)) × All IsDay rows

pub upsert_row-Holds_self :
    (row : CorroborationRow) (rows : List CorroborationRow)
    → IsDay row
    → All IsDay rows
    → Holds row.pattern_hash (upsert_row row rows)
upsert_row-Holds_self row rows h k = (mem-upsert_row row rows, upsert_row-IsDay row rows h k)

mem-upsert_row_other :
    (row : CorroborationRow) (rows : List CorroborationRow) (x : CorroborationRow)
    → Memᴰ x rows
    → (r : CorroborationRow) × Memᴰ r (upsert_row row rows) × (r.pattern_hash ≡ x.pattern_hash)
unfolding upsert_row
mem-upsert_row_other row [] x m = elim m [ ]
mem-upsert_row_other row (r ∷ rows) x m = elim (Bool-cases (same (key r) (key row))) [
  | inl t ↦ rw t (elim (Memᴰ.cases_cons m) [
    | inl e ↦ (on_conflict r row, Memᴰ.head refl, ap (λ z. z.pattern_hash) (sym e))
    | inr k ↦ (x, Memᴰ.tail k, refl)
  ])
  | inr f ↦ rw f (elim (Memᴰ.cases_cons m) [
    | inl e ↦ (r, Memᴰ.head refl, ap (λ z. z.pattern_hash) (sym e))
    | inr k ↦ let (y, n, e) = mem-upsert_row_other row rows x k in (y, Memᴰ.tail n, e)
  ])
]

upsert_row-Holds :
    (h : Bytes) (row : CorroborationRow) (rows : List CorroborationRow)
    → IsDay row
    → Holds h rows
    → Holds h (upsert_row row rows)
upsert_row-Holds h row rows d ((x, m, e), days) =
    let (y, n, q) = mem-upsert_row_other row rows x m in
    ((y, n, q ∙ e), upsert_row-IsDay row rows d days)

-- A pattern with a row is listed.
pub Holds-listed :
    (h : Bytes) (rows : List CorroborationRow)
    → Holds h rows
    → (a : AggregatedSuggestion) × Memᴰ a (map as_suggestion (listing (pos 1) none rows))
      × (a.pattern_hash_hex ≡ hex h)
unfolding members
Holds-listed h rows ((r, m, e), days) =
    let mine : CorroborationRow → Bool = λ x. same x.pattern_hash r.pattern_hash in
    let group = mem-filter mine rows m ((same_iff r.pattern_hash r.pattern_hash).1 refl) in
    let some_key = one_key r (members r.pattern_hash rows) group in
    let (g, listed, q) =
      listing_complete (pos 1) none rows r m (omega (arith, some_key))
        (All-filter IsDay mine rows days) in
    (as_suggestion g, Memᴰ.map as_suggestion listed, ap hex (q ∙ e))

accepted_or_not : (x : StatusCode) → (x ≡ accepted) ⊎ (x ≢ accepted)
accepted_or_not accepted = inl refl
accepted_or_not ok_status = inr (λ e. cc)
accepted_or_not bad_request = inr (λ e. cc)
accepted_or_not too_many_requests = inr (λ e. cc)
accepted_or_not internal_server_error = inr (λ e. cc)

module _ (g : Governor) (c : Crypto) (e : Serde) (enc : Encoder) where
  -- The states that later submissions lead to, each handled with any faults, at any instant, and
  -- answered in any way. Their days are 64-bit integers.
  pub data Later (s : AppState g c e enc) : AppState g c e enc → Type 0 where
    now_on : Later s s
    submit :
        {t u : AppState g c e enc} {r : Response} (qf ef : Fault) (now : g.Instant)
        (envelope : SubmitEnvelope)
        → Later s t
        → i64_min ≤ℤ envelope.signed.suggestion.submitted_at_day
        → handle_submit g c e enc qf ef now envelope t ≡ (r, u)
        → Later s u

  submit-Holds :
      (h : Bytes) (qf ef : Fault) (now : g.Instant) (envelope : SubmitEnvelope)
      (t u : AppState g c e enc) (r : Response)
      → i64_min ≤ℤ envelope.signed.suggestion.submitted_at_day
      → handle_submit g c e enc qf ef now envelope t ≡ (r, u)
      → Holds h t.store.corroborations
      → Holds h u.store.corroborations
  submit-Holds h qf ef now envelope t u r d q k = elim (accepted_or_not r.status) [
    | inl a ↦
        let (genuine, (rule_json, w, rows)) =
          accepted-rows g c e enc qf ef now envelope t u r q a in
        subst (Holds h) (sym rows) (upsert_row-Holds h _ t.store.corroborations d k)
    | inr n ↦
        subst (λ x. Holds h x.corroborations)
          (sym (handle_submit-refused g c e enc qf ef now envelope t u r q n)) k
  ]

  pub Later-Holds :
      (h : Bytes) (s u : AppState g c e enc)
      → Later s u
      → Holds h s.store.corroborations
      → Holds h u.store.corroborations
  Later-Holds h s u now_on k = k
  Later-Holds h s u (submit {t = t} {r = r} qf ef now envelope l d q) k =
      submit-Holds h qf ef now envelope t u r d q (Later-Holds h s t l k)
