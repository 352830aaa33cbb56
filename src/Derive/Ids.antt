-- ===== src/Derive/Ids.antt =====
-- The identifiers of derived rules: `id` is documented as "Snake_case, no whitespace".
use thundercrab.Prelude.{
  ℕ, ◌≤◌, ◌≡◌, refl, [], ◌∷◌, Text, codes, ascii_lower, is_ascii_alphanumeric, All, All-append, ◌⊎◌,
  arith, length, length-map,
}
use thundercrab.Derive.{sanitize_char, sanitize_id, derived_rule}
use thundercrab.Derive.Sums.{FlagCount}

-- A lower-case letter, a digit or an underscore.
abbrev pub IsIdChar : ℕ → Type 0
IsIdChar c = ((b'a' ≤ c) × (c ≤ b'z')) ⊎ ((b'0' ≤ c) × (c ≤ b'9')) ⊎ (c ≡ b'_')

sanitize_char-IsIdChar : (c : ℕ) → IsIdChar (sanitize_char c)
unfolding sanitize_char ascii_lower is_ascii_alphanumeric
sanitize_char-IsIdChar c = ground arith

sanitize_id-IsId : (s : Text) → All IsIdChar (sanitize_id s)
unfolding sanitize_id
sanitize_id-IsId [] = tt
sanitize_id-IsId (c ∷ s) = (sanitize_char-IsIdChar c, sanitize_id-IsId s)

sanitize_char_of_IsIdChar : (c : ℕ) → IsIdChar c → sanitize_char c ≡ c
unfolding sanitize_char ascii_lower is_ascii_alphanumeric
sanitize_char_of_IsIdChar c h = ground arith

-- A text that is an identifier already is kept.
sanitize_id_of_IsId : (s : Text) → All IsIdChar s → sanitize_id s ≡ s
unfolding sanitize_id
sanitize_id_of_IsId [] h = refl
sanitize_id_of_IsId (c ∷ s) h = cc (sanitize_char_of_IsIdChar c h.0, sanitize_id_of_IsId s h.1)

-- For every text, `sanitize_id` returns lower-case letters, digits and underscores alone, as many as
-- the text has characters, and a second pass changes nothing.
pub sanitize_id_lem :
    (s : Text)
    → All IsIdChar (sanitize_id s)
      × (length (sanitize_id s) ≡ length s)
      × (sanitize_id (sanitize_id s) ≡ sanitize_id s)
sanitize_id_lem s =
    (sanitize_id-IsId s, same_length s, sanitize_id_of_IsId (sanitize_id s) (sanitize_id-IsId s))
  where
    same_length : (s : Text) → length (sanitize_id s) ≡ length s
    same_length s = unfold sanitize_id in length-map sanitize_char s

derived_rule-IsId : (row : FlagCount) → All IsIdChar (derived_rule row).rule.id
unfolding derived_rule
derived_rule-IsId (domain, dest, count) = All-append IsIdChar (codes "derived_") _ prefix (
    All-append IsIdChar (sanitize_id domain) _ (sanitize_id-IsId domain)
      (All-append IsIdChar (codes "_to_") _ infix_ (sanitize_id-IsId dest)))
  where
    prefix : All IsIdChar (codes "derived_")
    prefix = ground arith

    infix_ : All IsIdChar (codes "_to_")
    infix_ = ground arith
