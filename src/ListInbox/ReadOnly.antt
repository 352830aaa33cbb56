-- ===== src/ListInbox/ReadOnly.antt =====
-- thundercrab-imap/examples/list_inbox.rs leaves the mailboxes as they are.
use thundercrab.Prelude.{Text, codes, some, List, Result-cases, inl, inr}
use thundercrab.Backend.{AccountConfig, plausiden}
use thundercrab.Imap.Session.{connect}
use thundercrab.Imap.Client.{rust_imap}
use thundercrab.Imap.ReadOnly.{Keeps, Kept, connect_keeps, list_folders_keeps, fetch_headers_keeps}
use thundercrab.ListInbox.{World, host_of, list_messages, list_all, connected, main}

module _ {S : Type 0} (world : World S) (P : S → Type 0)
    (keeps : Keeps world.connection world.imap P) where
  list_messages_keeps :
      (printed : List Text) (s : S) → P s → Kept P (list_messages world printed s).session
  unfolding list_messages
  list_messages_keeps printed s h =
      let k =
        fetch_headers_keeps P world.connection world.imap keeps world.lossy (codes "INBOX") (some 5)
          s h in
      elim (Result-cases
        ((rust_imap world.lossy world.imap).fetch_headers (codes "INBOX") (some 5) s).0) [
          | inr (x, e) ↦ rw (e, list_messages) k
          | inl (headers, e) ↦ rw (e, list_messages) (keeps.logout _ k)
        ]

  list_all_keeps : (printed : List Text) (s : S) → P s → Kept P (list_all world printed s).session
  unfolding list_all
  list_all_keeps printed s h =
      let k = list_folders_keeps P world.connection world.imap keeps s h in
      elim (Result-cases ((rust_imap world.lossy world.imap).list_folders s).0) [
        | inr (x, e) ↦ rw (e, list_all) k
        | inl (folders, e) ↦ rw (e, list_all) (list_messages_keeps _ _ k)
      ]

  connected_keeps :
      (cfg : AccountConfig) (password : Text) → Kept P (connected world cfg password).session
  unfolding connected
  connected_keeps cfg password = elim (Result-cases (connect world.connection cfg password)) [
    | inr (x, e) ↦ rw (e, connected) tt
    | inl (s, e) ↦
        rw (e, connected)
          (list_all_keeps _ s (connect_keeps P world.connection world.imap keeps cfg password s e))
  ]

  -- However the program ends, the session that it leaves has the mailboxes as they were at login, in
  -- all that reading commands keep.
  pub main-Kept : Kept P (main world).session
  unfolding main
  main-Kept = elim (Result-cases (world.env (codes "IMAP_USER"))) [
    | inr (x, e) ↦ rw (e, main) tt
    | inl (user, u) ↦ elim (Result-cases (world.env (codes "IMAP_PASSWORD"))) [
      | inr (x, p) ↦ rw (u, p, main) tt
      | inl (password, p) ↦
          rw (u, p, main)
            (connected_keeps (plausiden (host_of (world.env (codes "IMAP_HOST"))) user) password)
    ]
  ]
