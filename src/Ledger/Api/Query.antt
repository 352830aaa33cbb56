-- ===== src/Ledger/Api/Query.antt =====
-- `handle_suggestions`: what is served, in terms of the accepted submissions.
use mathlib.Core.List.{Memᴰ}
use thundercrab.Prelude.{
  ℕ, zero, suc, min, ◌≤◌, ◌≡◌, refl, sym, ap, ◌∙◌, Text, none, some, List, [], ◌∷◌, map, take,
  length, ok, arith, All,
}
use thundercrab.Prelude.Int.{pos, ◌≤ℤ◌}
use thundercrab.Prelude.Eq.{distinct, text_same, All-mem, All-of_mem}
use thundercrab.Prelude.Hex.{hex}
use thundercrab.Json.{Json, sort_value}
use thundercrab.Signing.Wire.{SignedSuggestion, Crypto, Serde}
use thundercrab.Signing.Verify.{IsGenuine}
use thundercrab.Ledger.Store.{Store, Group, listing, list_aggregated, as_suggestion}
use thundercrab.Ledger.Store.Listing.{IsAggregate, Passes, listing_sound}
use thundercrab.Ledger.Api.{
  AppState, SuggestionsQuery, SuggestionEntry, canonical_rule_json, default_limit, rule_or_null,
  entry_of, handle_suggestions,
}
use thundercrab.Ledger.Api.State.{Governor, Encoder}
use thundercrab.Ledger.Api.History.{Reaches, IsBacked, reached-IsBacked}
use thundercrab.Ledger.Api.Corroborators.{submitters, corroborators_of_reached}

module _ (enc : Encoder) where
  -- Every entry stands for a group of the listing.
  All-entries :
      (P : Group → Type 0) (Q : SuggestionEntry → Type 0) (n : ℕ) (gs : List Group)
      → ((g : Group) → P g → Q (entry_of enc (as_suggestion g)))
      → All P gs
      → All Q (map (entry_of enc) (take n (map as_suggestion gs)))
  All-entries P Q zero gs h k = tt
  All-entries P Q (suc n) [] h k = tt
  All-entries P Q (suc n) (g ∷ gs) h k = (h g k.0, All-entries P Q n gs h k.1)

  length-entries :
      (n : ℕ) (gs : List Group) → length (map (entry_of enc) (take n (map as_suggestion gs))) ≤ n
  length-entries zero gs = omega arith
  length-entries (suc n) [] = omega arith
  length-entries (suc n) (g ∷ gs) = omega (arith, length-entries n gs)

  -- When the statement runs, the answer is made of the first groups of the listing.
  handle_suggestions-eq :
      (q : SuggestionsQuery) (s : Store) (entries : List SuggestionEntry)
      → handle_suggestions enc none q s ≡ ok entries
      → entries
        ≡ map (entry_of enc) (
            take
              (min q.limit default_limit)
              (map as_suggestion (listing q.min_corroborators q.since_day s.corroborations)))
  unfolding handle_suggestions list_aggregated
  handle_suggestions-eq q s entries h = cc

-- `from_str` reads back what `to_string` writes.
abbrev pub ReadsBack : Encoder → Type 0
ReadsBack enc = (v : Json) (t : Text) → enc.to_string v ≡ ok t → enc.from_str t ≡ some v

module _ (c : Crypto) (e : Serde) where
  -- The entry is about a pattern that an accepted, genuine submission has signed for: it holds the
  -- canonical value of that submission's rule, under the hash of the submission, and counts the
  -- different keys that submitted the pattern.
  pub record IsServed (log : List SignedSuggestion) (q : SuggestionsQuery) (entry : SuggestionEntry)
      : Type 0 where
    pub source : SignedSuggestion
    pub is_logged : Memᴰ source log
    pub is_genuine : IsGenuine c e source
    pub same_hash : entry.pattern_hash ≡ hex source.suggestion.pattern_hash
    pub same_rule : entry.rule ≡ sort_value (e.rule_value source.suggestion.rule)
    pub counted :
        entry.corroborators
        ≡ pos (length (distinct (submitters source.suggestion.pattern_hash log)))
    pub enough : q.min_corroborators ≤ℤ entry.corroborators

module _ (g : Governor) (c : Crypto) (e : Serde) (enc : Encoder) where
  decoded :
      (v : Json) (t : Text)
      → ReadsBack enc
      → enc.to_string v ≡ ok t
      → rule_or_null (enc.from_str t) ≡ v
  decoded v t back h = rw (back v t h) refl

  entry_of-IsServed :
      (log : List SignedSuggestion) (s : AppState g c e enc) (q : SuggestionsQuery) (k : Group)
      → ReadsBack enc
      → Reaches g c e enc log s
      → IsAggregate s.store.corroborations k
      → Passes q.min_corroborators q.since_day k
      → IsServed c e log q (entry_of enc (as_suggestion k))
  unfolding entry_of canonical_rule_json
  entry_of-IsServed log s q k back r a passes =
      let b = All-mem (IsBacked g c e enc log) _ (reached-IsBacked g c e enc log s r) a.body_in in
      let same : k.pattern_hash ≡ b.source.suggestion.pattern_hash = cc (a.body_for, b.same_key) in
      record {
        source = b.source;
        is_logged = b.is_logged;
        is_genuine = b.is_genuine;
        same_hash = ap hex same;
        same_rule =
            ap (λ t. rule_or_null (enc.from_str t)) (sym a.body_is) ∙ decoded _ _ back b.same_rule;
        counted = ap pos (
            a.counted
            ∙ corroborators_of_reached g c e enc log s k.pattern_hash r
            ∙ ap (λ h. length (distinct (submitters h log))) same);
        enough = passes.0;
      }

  -- After any run of submissions, every entry that a query is answered with holds the canonical rule
  -- of a genuine accepted submission under its hash, counts the different public keys among the
  -- accepted submissions for the pattern, and has at least the corroborators asked for; there are at
  -- most `limit` and at most 1000 entries. The encoder must read back what it writes.
  pub handle_suggestions-IsServed :
      (log : List SignedSuggestion) (s : AppState g c e enc) (q : SuggestionsQuery)
      (entries : List SuggestionEntry)
      → ReadsBack enc
      → Reaches g c e enc log s
      → handle_suggestions enc none q s.store ≡ ok entries
      → All (IsServed c e log q) entries × (length entries ≤ q.limit) × (length entries ≤ 1000)
  handle_suggestions-IsServed log s q entries back r h =
      let gs = listing q.min_corroborators q.since_day s.store.corroborations in
      let (sound, passing, _) =
        listing_sound q.min_corroborators q.since_day s.store.corroborations in
      let short = length-entries enc (min q.limit default_limit) gs in
      rw (handle_suggestions-eq enc q s.store entries h) (
        All-entries enc
            (λ k. IsAggregate s.store.corroborations k × Passes q.min_corroborators q.since_day k)
            (IsServed c e log q) (min q.limit default_limit) gs
            (λ k p. entry_of-IsServed log s q k back r p.0 p.1)
            (All-of_mem _ gs (λ k m. (All-mem _ gs sound m, All-mem _ gs passing m))),
        omega (arith, short),
        omega (arith, short),
      )
