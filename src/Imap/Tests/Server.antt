-- ===== src/Imap/Tests/Server.antt =====
-- A server without MOVE that follows one message, for the runs of the backend: the selected folder,
-- and the folders that hold the message.
use thundercrab.Prelude.{
  ℕ, ◌≡◌, ◌≢◌, refl, ap, ◌∙◌, Bool, true, false, ◌&&◌, ◌||◌, Text, codes, text_eq, text_eq_iff,
  text_eq_refl, none, some, [], ◌∷◌, inl, ok, err, if◌then◌else◌, arith,
}
use thundercrab.Imap.Session.{Commands}
use thundercrab.Imap.Move.Safety.{Laws}

abbrev pub Held : Type 0
Held = Text × (Text → Bool)

abbrev pub server : Commands Held
server = record {
  list = λ reference pattern s. (ok (ok (codes "INBOX") ∷ ok (codes "Archive") ∷ []), s);
  status = λ name items s. (ok (record { exists = 2; unseen = some 1 }), s);
  examine = λ name s. (ok (record { exists = 2; unseen = none }), s);
  select = λ name s. (ok tt, (name, s.1));
  fetch = λ range items s. (ok [], s);
  uid_mv = λ uid name s. (err (codes "no MOVE"), s);
  uid_copy = λ uid name s. (ok tt, (s.0, λ f. (text_eq f name && s.1 s.0) || s.1 f));
  uid_store = λ uid item s. (ok [], s);
  expunge = λ s. (ok [], (s.0, λ f. if text_eq f s.0 then false else s.1 f));
  logout = λ s. (ok tt, s);
}

abbrev pub Has : Text → Held → Type 0
Has f s = s.1 f ≡ true

abbrev pub Selected : Text → Held → Type 0
Selected f s = s.0 ≡ f

copied : (f g : Text) (s : Held) → Selected f s → Has f s → (text_eq g g && s.1 s.0) || s.1 g ≡ true
copied f g s sel h = let there : s.1 s.0 ≡ true = ap s.1 sel ∙ h in rw (text_eq_refl g, there) refl

expunged :
    (f g : Text) (s : Held)
    → Selected f s
    → g ≢ f
    → Has g s
    → (if text_eq g s.0 then false else s.1 g) ≡ true
expunged f g s sel ne h =
    let other : g ≢ s.0 = λ e. ne (e ∙ sel) in ground (arith, text_eq_iff g s.0)

pub server_laws : (uid : ℕ) → Laws server uid Has Selected
server_laws uid = record {
  select_keeps = λ f g s h. h;
  select_ok = λ g s e. refl;
  mv_ok = λ f g s sel h e. absurd (ground arith);
  mv_keeps = λ f g s sel h. inl h;
  mv_selected = λ f g s sel. sel;
  copy_keeps = λ f g s h. ground (arith, h);
  copy_selected = λ f g s sel. sel;
  copy_ok = λ f g s sel h e. copied f g s sel h;
  store_keeps = λ f item s h. h;
  store_selected = λ f item s sel. sel;
  expunge_keeps = expunged;
}

abbrev pub at_inbox : Held
at_inbox = ([], λ f. text_eq f (codes "INBOX"))
