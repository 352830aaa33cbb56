-- ===== src/Imap/Move/Safety.antt =====
-- `move_message` of rust_imap.rs on a server that keeps to RFC 3501 and RFC 6851.
use thundercrab.Prelude.{
  ℕ, ◌≡◌, ◌≢◌, Text, codes, ◌++◌, Result, ok, err, arith, ◌⊎◌, inl, inr, Result-cases,
}
use thundercrab.Prelude.Decimal.{show}
use thundercrab.Backend.{Method, BackendError}
use thundercrab.Imap.Session.{Commands, Call, and_then, call}
use thundercrab.Imap.Move.{copy_and_expunge, move_selected, move_message}

-- What the RFCs promise of the message with a UID: `Has f` says that a folder `f` holds it, and
-- `Selected f` that the folder is selected. Selecting, copying and storing flags remove nothing; MOVE
-- leaves the message in one of the two folders, also if its answer is lost; EXPUNGE removes only from
-- the selected folder.
pub record Laws {ℓ} {S : Type ℓ} (imap : Commands S) (uid : ℕ) (Has Selected : Text → S → Type 0)
    : Type ℓ where
  pub select_keeps : (f g : Text) (s : S) → Has f s → Has f (imap.select g s).1
  pub select_ok : (g : Text) (s : S) → (imap.select g s).0 ≡ ok tt → Selected g (imap.select g s).1
  pub mv_ok :
      (f g : Text) (s : S)
      → Selected f s
      → Has f s
      → (imap.uid_mv (show uid) g s).0 ≡ ok tt
      → Has g (imap.uid_mv (show uid) g s).1
  pub mv_keeps :
      (f g : Text) (s : S)
      → Selected f s
      → Has f s
      → Has f (imap.uid_mv (show uid) g s).1 ⊎ Has g (imap.uid_mv (show uid) g s).1
  pub mv_selected : (f g : Text) (s : S) → Selected f s → Selected f (imap.uid_mv (show uid) g s).1
  pub copy_keeps : (f g : Text) (s : S) → Has f s → Has f (imap.uid_copy (show uid) g s).1
  pub copy_selected :
      (f g : Text) (s : S) → Selected f s → Selected f (imap.uid_copy (show uid) g s).1
  pub copy_ok :
      (f g : Text) (s : S)
      → Selected f s
      → Has f s
      → (imap.uid_copy (show uid) g s).0 ≡ ok tt
      → Has g (imap.uid_copy (show uid) g s).1
  pub store_keeps : (f item : Text) (s : S) → Has f s → Has f (imap.uid_store (show uid) item s).1
  pub store_selected :
      (f item : Text) (s : S) → Selected f s → Selected f (imap.uid_store (show uid) item s).1
  pub expunge_keeps :
      (f g : Text) (s : S) → Selected f s → g ≢ f → Has g s → Has g (imap.expunge s).1

module _ {ℓ} {S : Type ℓ} (imap : Commands S) (uid : ℕ) (Has Selected : Text → S → Type 0)
    (laws : Laws imap uid Has Selected) (from_folder to_folder : Text)
    (apart : to_folder ≢ from_folder) where
  -- The target has the message, or the move has failed and the source still has it.
  abbrev pub IsSafe : Result (Unit {0}) BackendError × S → Type 0
  IsSafe (r, t) = Has to_folder t ⊎ ((r ≢ ok tt) × Has from_folder t)

  -- One of the two folders has the message.
  abbrev Kept : S → Type 0
  Kept s = Has from_folder s ⊎ Has to_folder s

  failed-IsSafe : (e : BackendError) (t : S) → Kept t → IsSafe (err e, t)
  failed-IsSafe e t (inl h) = inr ((λ p. ground arith), h)
  failed-IsSafe e t (inr h) = inl h

  -- A command that fails leaves the message in one of the folders; one that succeeds goes on.
  call-IsSafe :
      {A : Type 0} (context : Text) (f : Call S A) (s : S) (k : A → Method S (Unit {0}))
      → Kept (f s).1
      → ((a : A) → (f s).0 ≡ ok a → IsSafe (k a (f s).1))
      → IsSafe (and_then (call context f s) k)
  unfolding and_then
  call-IsSafe context f s k h go = elim (Result-cases (f s).0) [
    | inl (a, e) ↦ rw (e, and_then) (go a e)
    | inr (x, e) ↦ rw (e, and_then) (failed-IsSafe _ (f s).1 h)
  ]

  copy-Kept : (s : S) → Kept s → Kept (imap.uid_copy (show uid) to_folder s).1
  copy-Kept s (inl h) = inl (laws.copy_keeps from_folder to_folder s h)
  copy-Kept s (inr h) = inr (laws.copy_keeps to_folder to_folder s h)

  copied :
      (s : S)
      → Selected from_folder s
      → Kept s
      → (imap.uid_copy (show uid) to_folder s).0 ≡ ok tt
      → Has to_folder (imap.uid_copy (show uid) to_folder s).1
  copied s sel (inl h) c = laws.copy_ok from_folder to_folder s sel h c
  copied s sel (inr h) c = laws.copy_keeps to_folder to_folder s h

  copy_and_expunge-IsSafe :
      (s : S) → Selected from_folder s → Kept s → IsSafe (copy_and_expunge imap to_folder uid s)
  unfolding copy_and_expunge
  copy_and_expunge-IsSafe s sel h =
      let deleted = codes "+FLAGS (\\Deleted)" in
      let s1 = (imap.uid_copy (show uid) to_folder s).1 in
      let s2 = (imap.uid_store (show uid) deleted s1).1 in
      let sel1 = laws.copy_selected from_folder to_folder s sel in
      call-IsSafe (codes "uid_copy: ") (imap.uid_copy (show uid) to_folder) s _ (copy-Kept s h)
        λ u c.
          let there = laws.store_keeps to_folder deleted s1 (copied s sel h c) in
          let sel2 = laws.store_selected from_folder deleted s1 sel1 in
          let still = laws.expunge_keeps from_folder to_folder s2 sel2 apart there in
          call-IsSafe (codes "uid_store: ") (imap.uid_store (show uid) deleted) s1 _ (inr there)
            λ items c.
              call-IsSafe (codes "expunge: ") imap.expunge s2 _ (inr still) λ items c. inl still

  move_selected-IsSafe :
      (s : S)
      → Selected from_folder s
      → Has from_folder s
      → IsSafe (move_selected imap to_folder uid s)
  unfolding move_selected
  move_selected-IsSafe s sel h = elim (Result-cases (imap.uid_mv (show uid) to_folder s).0) [
    | inl (u, e) ↦ rw (e, move_selected) (inl (laws.mv_ok from_folder to_folder s sel h e))
    | inr (x, e) ↦
        rw (e, move_selected)
          (copy_and_expunge-IsSafe (imap.uid_mv (show uid) to_folder s).1
            (laws.mv_selected from_folder to_folder s sel)
            (laws.mv_keeps from_folder to_folder s sel h))
  ]

-- On a server that keeps to its RFCs, moving a message between two different folders loses it in no
-- case: whether and wherever a command fails, the target folder holds it afterwards, or
-- `move_message` has failed and the source folder still holds it.
pub move_message-IsSafe {ℓ} :
    {S : Type ℓ} (imap : Commands S) (uid : ℕ) (Has Selected : Text → S → Type 0)
    (laws : Laws imap uid Has Selected) (from_folder to_folder : Text) (s : S)
    → to_folder ≢ from_folder
    → Has from_folder s
    → Has to_folder (move_message imap from_folder to_folder uid s).1
      ⊎ (((move_message imap from_folder to_folder uid s).0 ≢ ok tt)
          × Has from_folder (move_message imap from_folder to_folder uid s).1)
unfolding move_message
move_message-IsSafe imap uid Has Selected laws from_folder to_folder s apart h =
    let h1 = laws.select_keeps from_folder from_folder s h in
    let s1 = (imap.select from_folder s).1 in
    call-IsSafe imap uid Has Selected laws from_folder to_folder apart
      (codes "select " ++ (from_folder ++ codes ": ")) (imap.select from_folder) s _ (inl h1)
      λ u c.
        move_selected-IsSafe imap uid Has Selected laws from_folder to_folder apart s1
          (laws.select_ok from_folder s c) h1
