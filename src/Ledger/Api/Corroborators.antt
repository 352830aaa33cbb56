-- ===== src/Ledger/Api/Corroborators.antt =====
-- How many corroborators the ledger counts, in terms of the accepted submissions.
use mathlib.Core.Bool.{not}
use thundercrab.Prelude.{
  ◌≡◌, refl, ap, ◌∙◌, List, [], ◌∷◌, map, filter, length, Bool-cases, inl, inr, arith,
  if◌then◌else◌,
}
use thundercrab.Prelude.Eq.{distinct, same, same_iff, text_same, pair_same, distinct-Distinct}
use thundercrab.Prelude.Append.{distinct_of_Distinct}
use thundercrab.Signing.Wire.{Bytes, SignedSuggestion, Crypto, Serde}
use thundercrab.Ledger.Store.{count_public_keys, members}
use thundercrab.Ledger.Store.Counts.{keys_for, count-keys_for}
use thundercrab.Ledger.Api.{AppState}
use thundercrab.Ledger.Api.State.{Governor, Encoder}
use thundercrab.Ledger.Api.History.{submission_key, Reaches, keys_of_reached}

-- The public keys of the submissions for a pattern.
abbrev pub submitters : Bytes → List SignedSuggestion → List Bytes
submitters h log = map (λ x. x.public_key) (filter (λ x. same x.suggestion.pattern_hash h) log)

keys_for-filter :
    (h a b : Bytes) (ks : List (Bytes × Bytes))
    → keys_for h (filter (λ k. not (same (a, b) k)) ks)
      ≡ (if same a h then filter (λ k. not (same b k)) (keys_for h ks) else keys_for h ks)
unfolding keys_for
keys_for-filter h a b [] = ground arith
keys_for-filter h a b ((c, d) ∷ ks) =
    ground (arith, keys_for-filter h a b ks, same_iff a h, same_iff c h, same_iff a c)

keys_for-distinct :
    (h : Bytes) (ks : List (Bytes × Bytes)) → keys_for h (distinct ks) ≡ distinct (keys_for h ks)
unfolding keys_for distinct
keys_for-distinct h [] = refl
keys_for-distinct h ((a, b) ∷ ks) = elim (Bool-cases (same a h)) [
  | inl t ↦
      rw (t, keys_for-filter h a b (distinct ks), t)
        (ap (λ l. b ∷ filter (λ k. not (same b k)) l) (keys_for-distinct h ks))
  | inr f ↦ rw (f, keys_for-filter h a b (distinct ks), f) (keys_for-distinct h ks)
]

keys_for-map :
    (h : Bytes) (log : List SignedSuggestion)
    → keys_for h (map submission_key log) ≡ submitters h log
unfolding keys_for
keys_for-map h [] = refl
keys_for-map h (x ∷ log) = elim (Bool-cases (same x.suggestion.pattern_hash h)) [
  | inl t ↦ rw (t, keys_for-map h log)
  | inr f ↦ rw (f, keys_for-map h log)
]

module _ (g : Governor) (c : Crypto) (e : Serde) (enc : Encoder) where
  -- After any run of submissions, a pattern has as many corroborators as there are different public
  -- keys among the accepted submissions for it.
  pub corroborators_of_reached :
      (log : List SignedSuggestion) (s : AppState g c e enc) (h : Bytes)
      → Reaches g c e enc log s
      → count_public_keys (members h s.store.corroborations) ≡ length (distinct (submitters h log))
  corroborators_of_reached log s h r =
      count-keys_for h s.store.corroborations
      ∙ ap length (
          ap (λ ks. distinct (keys_for h ks)) (keys_of_reached g c e enc log s r)
          ∙ ap distinct (keys_for-distinct h (map submission_key log))
          ∙ distinct_of_Distinct _ (distinct-Distinct (keys_for h (map submission_key log)))
          ∙ ap distinct (keys_for-map h log))
