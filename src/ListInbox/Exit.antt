-- ===== src/ListInbox/Exit.antt =====
-- The exit codes of thundercrab-imap/examples/list_inbox.rs.
use mathlib.Core.Path.{subst}
use thundercrab.Prelude.{
  ◌+◌, ap, length-map, length-append, ◌≡◌, refl, sym, Text, codes, ◌++◌, none, some, List, [], ◌∷◌,
  map, length, ok, err, arith, ◌⊎◌, inl, inr, Result-cases,
}
use thundercrab.Backend.{plausiden, FolderSummary, MessageHeaders}
use thundercrab.Imap.Session.{connect, logout}
use thundercrab.Imap.Client.{rust_imap}
use thundercrab.ListInbox.{
  World, Report, host_of, folder_text, header_text, list_messages, list_all, connected, main,
}

module _ {S : Type 0} (world : World S) where
  abbrev pub IsUnset : Text → Type 0
  IsUnset name = (e : Text) × (world.env name ≡ err e)

  -- A run that did all: both listings worked in one session, which is logged out after them, and each
  -- folder and each message has its line.
  pub record IsDone (r : Report S) : Type 0 where
    pub user : Text
    pub password : Text
    pub opened : S
    pub listed : S
    pub fetched : S
    pub folders : List FolderSummary
    pub headers : List MessageHeaders
    pub is_user : world.env (codes "IMAP_USER") ≡ ok user
    pub is_password : world.env (codes "IMAP_PASSWORD") ≡ ok password
    pub is_opened :
        connect world.connection (plausiden (host_of (world.env (codes "IMAP_HOST"))) user) password
        ≡ ok opened
    pub is_listed : (rust_imap world.lossy world.imap).list_folders opened ≡ (ok folders, listed)
    pub is_fetched :
        (rust_imap world.lossy world.imap).fetch_headers (codes "INBOX") (some 5) listed
        ≡ (ok headers, fetched)
    pub logged_out : r.session ≡ some (logout world.imap fetched)
    pub lines : length r.printed ≡ 3 + (length folders + length headers)
    pub no_complaint : r.complained ≡ []

  -- How a run ends: without a credential it exits with 2 and does nothing, if a step fails with 1 and
  -- a complaint, and else with 0 when all is done.
  abbrev pub IsExit : Report S → Type 0
  IsExit r =
      ((r.code ≡ 2)
        × (IsUnset (codes "IMAP_USER") ⊎ IsUnset (codes "IMAP_PASSWORD"))
        × (r.printed ≡ [])
        × (r.session ≡ none))
      ⊎ (((r.code ≡ 1) × (length r.complained ≡ 1)) ⊎ ((r.code ≡ 0) × IsDone r))

  list_messages-IsExit :
      (user password : Text) (opened listed : S) (folders : List FolderSummary)
      (printed : List Text)
      → world.env (codes "IMAP_USER") ≡ ok user
      → world.env (codes "IMAP_PASSWORD") ≡ ok password
      → connect world.connection (plausiden (host_of (world.env (codes "IMAP_HOST"))) user) password
        ≡ ok opened
      → (rust_imap world.lossy world.imap).list_folders opened ≡ (ok folders, listed)
      → length printed ≡ 2 + length folders
      → IsExit (list_messages world printed listed)
  unfolding list_messages
  list_messages-IsExit user password opened listed folders printed u p o l n =
      let answer =
        (rust_imap world.lossy world.imap).fetch_headers (codes "INBOX") (some 5) listed in
      let title = codes "\n--- INBOX (most recent 5) ---" in
      elim (Result-cases answer.0) [
        | inr (x, e) ↦ inr (inl (rw (e, list_messages) (refl, refl)))
        | inl (headers, e) ↦ inr (
            inr (
              rw (e, list_messages)
                (
                  refl,
                  record {
                    user = user;
                    password = password;
                    opened = opened;
                    listed = listed;
                    fetched = answer.1;
                    folders = folders;
                    headers = headers;
                    is_user = u;
                    is_password = p;
                    is_opened = o;
                    is_listed = l;
                    is_fetched = ap (λ r. (r, answer.1)) e;
                    logged_out = refl;
                    lines = omega (
                      arith,
                      n,
                      length-append (printed ++ (title ∷ [])) (map (header_text world) headers),
                      length-append printed (title ∷ []),
                      length-map (header_text world) headers,
                    );
                    no_complaint = refl;
                  },
                )))
      ]

  list_all-IsExit :
      (user password : Text) (opened : S) (printed : List Text)
      → world.env (codes "IMAP_USER") ≡ ok user
      → world.env (codes "IMAP_PASSWORD") ≡ ok password
      → connect world.connection (plausiden (host_of (world.env (codes "IMAP_HOST"))) user) password
        ≡ ok opened
      → length printed ≡ 1
      → IsExit (list_all world printed opened)
  unfolding list_all
  list_all-IsExit user password opened printed u p o n =
      let answer = (rust_imap world.lossy world.imap).list_folders opened in
      let title = codes "\n--- folders ---" in
      elim (Result-cases answer.0) [
        | inr (x, e) ↦ inr (inl (rw (e, list_all) (refl, refl)))
        | inl (folders, e) ↦
            rw (e, list_all)
              (list_messages-IsExit user password opened answer.1 folders
                ((printed ++ (title ∷ [])) ++ map folder_text folders) u p o
                (ap (λ r. (r, answer.1)) e)
                (omega (
                  arith,
                  n,
                  length-append (printed ++ (title ∷ [])) (map folder_text folders),
                  length-append printed (title ∷ []),
                  length-map folder_text folders,
                )))
      ]

  connected-IsExit :
      (user password : Text)
      → world.env (codes "IMAP_USER") ≡ ok user
      → world.env (codes "IMAP_PASSWORD") ≡ ok password
      → IsExit (connected world (plausiden (host_of (world.env (codes "IMAP_HOST"))) user) password)
  unfolding connected
  connected-IsExit user password u p =
      elim (Result-cases (
        connect world.connection (plausiden (host_of (world.env (codes "IMAP_HOST"))) user)
          password)) [
            | inr (x, e) ↦ inr (inl (rw (e, connected) (refl, refl)))
            | inl (s, e) ↦ rw (e, connected) (list_all-IsExit user password s _ u p e refl)
          ]

  -- The program exits with 2 only when the user or the password is not set, and then prints nothing
  -- and opens no session; with 1 and one complaint if a step fails; and with 0 only when both
  -- listings worked in one session, which is then logged out, and each folder and message has its line.
  pub main-IsExit : IsExit (main world)
  unfolding main
  main-IsExit = elim (Result-cases (world.env (codes "IMAP_USER"))) [
    | inr (x, e) ↦ inl (rw (e, main) (refl, inl (x, refl), refl, refl))
    | inl (user, u) ↦ elim (Result-cases (world.env (codes "IMAP_PASSWORD"))) [
      | inr (x, e) ↦ inl (rw (u, e, main) (refl, inr (x, refl), refl, refl))
      | inl (password, p) ↦
          let same : main world
              ≡ connected world (plausiden (host_of (world.env (codes "IMAP_HOST"))) user)
                  password =
            rw (main, u, p) refl in
          subst IsExit (sym same) (connected-IsExit user password u p)
    ]
  ]
