-- ===== src/Ledger/Api/History.antt =====
-- The table after any run of submissions, each handled with any faults, at any instant.
use mathlib.Core.List.{Memᴰ, map-append}
use mathlib.Core.List.Memᴰ
use mathlib.Core.Path.{subst}
use thundercrab.Prelude.{
  ◌≡◌, ◌≢◌, refl, sym, ap, ◌∙◌, Bool, Text, none, some, List, [], ◌∷◌, ◌++◌, map, ok, Bool-cases,
  inl, inr, arith, All,
}
use thundercrab.Prelude.Eq.{distinct, same, same_iff, text_same, pair_same, All-of_mem, All-mem}
use thundercrab.Prelude.Append.{contains, distinct-append, contains-distinct}
use thundercrab.Prelude.Sql.{Fault}
use thundercrab.Signing.Wire.{Bytes, SignedSuggestion, Crypto, Serde}
use thundercrab.Signing.Verify.{IsGenuine}
use thundercrab.Ledger.Store.{
  CorroborationRow, Store, key, has_key, on_conflict, upsert_row, upsert,
}
use thundercrab.Ledger.Store.Rows.{keys-upsert_row, has_key-contains}
use thundercrab.Ledger.Api.{AppState, canonical_rule_json, row_of, handle_submit}
use thundercrab.Ledger.Api.State.{Governor, Encoder, accepted, Response, SubmitEnvelope}
use thundercrab.Ledger.Api.Submit.{handle_submit-accepted, handle_submit-refused}

-- The key of a submission's row.
abbrev pub submission_key : SignedSuggestion → Bytes × Bytes
submission_key signed = (signed.suggestion.pattern_hash, signed.public_key)

upsert-rows :
    (qf ef : Fault) (row : CorroborationRow) (s t : Store) (new : Bool)
    → upsert qf ef row s ≡ ok (new, t)
    → t.corroborations ≡ upsert_row row s.corroborations
unfolding upsert
upsert-rows none none row s t new h = ground arith
upsert-rows none (some x) row s t new h = absurd (ground arith)
upsert-rows (some x) ef row s t new h = absurd (ground arith)

keys-step :
    (row : CorroborationRow) (rows : List CorroborationRow) (ks : List (Bytes × Bytes))
    → map key rows ≡ distinct ks
    → map key (upsert_row row rows) ≡ distinct (ks ++ (key row ∷ []))
keys-step row rows ks h =
    let known : contains (key row) ks ≡ has_key (key row) rows =
      sym (contains-distinct (key row) ks)
      ∙ ap (contains (key row)) (sym h)
      ∙ has_key-contains (key row) rows in
    rw (keys-upsert_row row rows, distinct-append, h, known) refl

module _ (P : CorroborationRow → Type 0) (row : CorroborationRow) where
  upsert_row-All :
      (rows : List CorroborationRow)
      → All P rows
      → P row
      → ((old : CorroborationRow) → key old ≡ key row → P (on_conflict old row))
      → All P (upsert_row row rows)
  unfolding upsert_row
  upsert_row-All [] h p q = (p, tt)
  upsert_row-All (r ∷ rows) h p q = elim (Bool-cases (same (key r) (key row))) [
    | inl t ↦ rw t (q r ((same_iff (key r) (key row)).0 t), h.1)
    | inr f ↦ rw f (h.0, upsert_row-All rows h.1 p q)
  ]

module _ (g : Governor) (c : Crypto) (e : Serde) (enc : Encoder) where
  -- The log holds a genuine submission with the row's key, signature and canonical rule.
  pub record IsBacked (log : List SignedSuggestion) (row : CorroborationRow) : Type 0 where
    pub source : SignedSuggestion
    pub is_logged : Memᴰ source log
    pub is_genuine : IsGenuine c e source
    pub same_key : submission_key source ≡ key row
    pub same_signature : source.signature ≡ row.signature
    pub same_rule : canonical_rule_json e enc source.suggestion.rule ≡ ok row.rule_json

  -- The states that runs of submissions lead to from an empty table, with the accepted submissions in
  -- the order of their acceptance.
  pub data Reaches : List SignedSuggestion → AppState g c e enc → Type 0 where
    start : {s : AppState g c e enc} → s.store.corroborations ≡ [] → Reaches [] s
    accept :
        {log : List SignedSuggestion} {s t : AppState g c e enc} {r : Response} (qf ef : Fault)
        (now : g.Instant) (envelope : SubmitEnvelope)
        → Reaches log s
        → handle_submit g c e enc qf ef now envelope s ≡ (r, t)
        → r.status ≡ accepted
        → Reaches (log ++ (envelope.signed ∷ [])) t
    refuse :
        {log : List SignedSuggestion} {s t : AppState g c e enc} {r : Response} (qf ef : Fault)
        (now : g.Instant) (envelope : SubmitEnvelope)
        → Reaches log s
        → handle_submit g c e enc qf ef now envelope s ≡ (r, t)
        → r.status ≢ accepted
        → Reaches log t

  -- What an accepted submission does to the rows.
  pub accepted-rows :
      (qf ef : Fault) (now : g.Instant) (envelope : SubmitEnvelope) (s t : AppState g c e enc)
      (r : Response)
      → handle_submit g c e enc qf ef now envelope s ≡ (r, t)
      → r.status ≡ accepted
      → IsGenuine c e envelope.signed
        × ((rule_json : Text) × (canonical_rule_json e enc envelope.signed.suggestion.rule
              ≡ ok rule_json)
            × (t.store.corroborations
                ≡ upsert_row
                    (row_of envelope.signed envelope.signed.suggestion rule_json)
                    s.store.corroborations))
  accepted-rows qf ef now envelope s t r q h =
      let (a, (rule_json, w, (new, u, b))) =
        handle_submit-accepted g c e enc qf ef now envelope s t r q h in
      (a.genuine, (rule_json, w, upsert-rows qf ef _ s.store t.store new u))

  -- After any run of submissions, the keys of the table are the distinct pairs of pattern hash and
  -- public key of the accepted submissions, in the order of their first acceptance.
  pub keys_of_reached :
      (log : List SignedSuggestion) (s : AppState g c e enc)
      → Reaches log s
      → map key s.store.corroborations ≡ distinct (map submission_key log)
  keys_of_reached [] s (start h) = unfold distinct in ap (map key) h
  keys_of_reached log t (refuse {s = s} {r = r} qf ef now envelope h q n) =
      ap (λ x. map key x.corroborations)
        (handle_submit-refused g c e enc qf ef now envelope s t r q n)
      ∙ keys_of_reached log s h
  keys_of_reached _ t (accept {log = log} {s = s} {r = r} qf ef now envelope h q a) =
      let (genuine, (rule_json, w, rows)) = accepted-rows qf ef now envelope s t r q a in
      ap (map key) rows
      ∙ keys-step _ s.store.corroborations (map submission_key log) (keys_of_reached log s h)
      ∙ ap distinct (sym (map-append submission_key log (envelope.signed ∷ [])))

  IsBacked-append :
      (log : List SignedSuggestion) (x : SignedSuggestion) (row : CorroborationRow)
      → IsBacked log row
      → IsBacked (log ++ (x ∷ [])) row
  IsBacked-append log x row b = record {
    source = b.source;
    is_logged = Memᴰ.append_left (x ∷ []) b.is_logged;
    is_genuine = b.is_genuine;
    same_key = b.same_key;
    same_signature = b.same_signature;
    same_rule = b.same_rule;
  }

  -- After any run of submissions, every row of the table holds the key, the signature and the
  -- canonical rule body of an accepted submission that is genuine.
  pub reached-IsBacked :
      (log : List SignedSuggestion) (s : AppState g c e enc)
      → Reaches log s
      → All (IsBacked log) s.store.corroborations
  reached-IsBacked [] s (start h) = rw h tt
  reached-IsBacked log t (refuse {s = s} {r = r} qf ef now envelope h q n) =
      subst (λ x. All (IsBacked log) x.corroborations)
        (sym (handle_submit-refused g c e enc qf ef now envelope s t r q n))
        (reached-IsBacked log s h)
  reached-IsBacked _ t (accept {log = log} {s = s} {r = r} qf ef now envelope h q a) =
      let (genuine, (rule_json, w, rows)) = accepted-rows qf ef now envelope s t r q a in
      let last : Memᴰ envelope.signed (log ++ (envelope.signed ∷ [])) =
        Memᴰ.append_right log (Memᴰ.head refl) in
      subst (All (IsBacked (log ++ (envelope.signed ∷ [])))) (sym rows) (
        upsert_row-All (IsBacked (log ++ (envelope.signed ∷ [])))
          (row_of envelope.signed envelope.signed.suggestion rule_json) s.store.corroborations
          (All-of_mem _ _ (λ x m.
            IsBacked-append log envelope.signed x (All-mem _ _ (reached-IsBacked log s h) m)))
          (record {
            source = envelope.signed;
            is_logged = last;
            is_genuine = genuine;
            same_key = refl;
            same_signature = refl;
            same_rule = w;
          })
          (λ old k. record {
            source = envelope.signed;
            is_logged = last;
            is_genuine = genuine;
            same_key = sym k;
            same_signature = refl;
            same_rule = w;
          }))
