-- ===== src/Imap/ReadOnly.antt =====
-- `list_folders`, `fetch_headers` and `logout` of thundercrab-imap/src/rust_imap.rs use only commands
-- that read.
use thundercrab.Prelude.{
  ◌≡◌, Text, codes, Option, none, some, arith, List, [], ◌∷◌, Result, ok, err, Bool-cases, ◌==◌, ℕ,
  inl, inr,
}
use thundercrab.Backend.{AccountConfig, BackendError}
use thundercrab.Prelude.Strings.{Bytes}
use thundercrab.Imap.Session.{Connection, Commands, and_then, connect}
use thundercrab.Imap.Folders.{statuses, list_folders}
use thundercrab.Imap.Fetch.{fetch_headers}

-- What the RFCs say of reading: `P` is something about the mailboxes that LIST, STATUS, EXAMINE,
-- LOGOUT and a FETCH of BODY.PEEK keep, such as the flags of each message. It holds at login.
pub record Keeps {S : Type 0} (net : Connection S) (imap : Commands S) (P : S → Type 0)
    : Type 0 where
  pub login : (user password : Text) (s : S) → net.login user password ≡ ok s → P s
  pub list : (reference pattern : Text) (s : S) → P s → P (imap.list reference pattern s).1
  pub status : (name items : Text) (s : S) → P s → P (imap.status name items s).1
  pub examine : (name : Text) (s : S) → P s → P (imap.examine name s).1
  pub fetch :
      (range : Text) (s : S)
      → P s
      → P (imap.fetch range (codes "(UID ENVELOPE BODY.PEEK[HEADER])") s).1
  pub logout : (s : S) → P s → P (imap.logout s).1

module _ {S : Type 0} (P : S → Type 0) where
  -- It holds of a session, if there is one.
  abbrev pub Kept : Option S → Type 0
  Kept none = Unit
  Kept (some s) = P s

  -- The next step is taken from the state that the first one leaves, or none is.
  and_then_keeps :
      {A B : Type 0} (r : Result A BackendError) (s : S) (k : A → S → Result B BackendError × S)
      → P s
      → ((a : A) → P s → P (k a s).1)
      → P (and_then (r, s) k).1
  unfolding and_then
  and_then_keeps (ok a) s k h f = f a h
  and_then_keeps (err e) s k h f = h

  module _ (net : Connection S) (imap : Commands S) (keeps : Keeps net imap P) where
    statuses_keeps : (names : List Text) (s : S) → P s → P (statuses imap names s).1
    unfolding statuses
    statuses_keeps [] s h = h
    statuses_keeps (name ∷ names) s h =
        and_then_keeps _ _ _ (keeps.status name _ s h)
          λ status k. and_then_keeps _ _ _ (statuses_keeps names _ k) λ rest l. l

    pub list_folders_keeps : (s : S) → P s → P (list_folders imap s).1
    unfolding list_folders
    list_folders_keeps s h =
        and_then_keeps _ _ _ (keeps.list [] (codes "*") s h)
          λ items k. and_then_keeps _ _ _ k λ names l. statuses_keeps names _ l

    pub fetch_headers_keeps :
        (lossy : Bytes → Text) (folder : Text) (limit : Option ℕ) (s : S)
        → P s
        → P (fetch_headers lossy imap folder limit s).1
    unfolding fetch_headers
    fetch_headers_keeps lossy folder limit s h =
        and_then_keeps _ _ _ (keeps.examine folder s h) λ status k.
          elim (Bool-cases (status.exists == 0)) [
            | inl t ↦ rw t k
            | inr f ↦ rw f (and_then_keeps _ _ _ (keeps.fetch _ _ k) (λ items l. l))
          ]

    pub connect_keeps :
        (cfg : AccountConfig) (password : Text) (s : S) → connect net cfg password ≡ ok s → P s
    unfolding connect
    connect_keeps cfg password s h = keeps.login cfg.username password s (ground arith)
