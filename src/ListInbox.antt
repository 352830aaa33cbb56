-- ===== src/ListInbox.antt =====
-- thundercrab-imap/examples/list_inbox.rs: the program that logs in, lists the folders and the newest
-- five messages of INBOX, and logs out.
pub mod Exit
pub mod ReadOnly
mod Tests
use thundercrab.Prelude.{
  ℕ, Text, codes, ◌++◌, Option, none, some, List, [], ◌∷◌, map, Result, ok, err,
}
use thundercrab.Prelude.Decimal.{show}
use thundercrab.Prelude.Strings.{Bytes, aligned}
use thundercrab.Backend.{
  AccountConfig, plausiden, FolderSummary, MessageHeaders, BackendError, show_error,
}
use thundercrab.Imap.Session.{Connection, Commands, connect, logout}
use thundercrab.Imap.Client.{rust_imap}

-- What the program runs in; `debug` is the format `{:?}` of a string.
pub record World (S : Type 0) : Type 0 where
  pub env : Text → Result Text Text
  pub connection : Connection S
  pub imap : Commands S
  pub lossy : Bytes → Text
  pub debug : Text → Text

-- What a run has printed and complained of, the session it had, and its exit code.
pub record Report (S : Type 0) : Type 0 where
  pub printed : List Text
  pub complained : List Text
  pub session : Option S
  pub code : ℕ

abbrev pub default_host : Text
default_host = codes "mail.plausiden.com"

abbrev pub host_of : Result Text Text → Text
host_of (ok host) = host
host_of (err e) = default_host

abbrev pub folder_text : FolderSummary → Text
folder_text f =
    codes "  "
    ++ (aligned 6 (show f.unseen)
        ++ (codes " unread / " ++ (aligned 6 (show f.messages) ++ (codes " total   " ++ f.name))))

module _ {S : Type 0} (world : World S) where
  abbrev pub header_text : MessageHeaders → Text
  header_text h =
      codes "  uid="
      ++ (show h.uid
          ++ (codes " from="
              ++ (world.debug h.from ++ (codes " subject=" ++ world.debug h.subject))))

  abbrev pub exits : ℕ → List Text → Text → Option S → Report S
  exits code printed e session = record {
    printed = printed;
    complained = e ∷ [];
    session = session;
    code = code;
  }

  -- The second listing, after what is already printed.
  unfoldable pub list_messages : List Text → S → Report S
  list_messages printed s =
      let before = printed ++ (codes "\n--- INBOX (most recent 5) ---" ∷ []) in
      let (r, t) = (rust_imap world.lossy world.imap).fetch_headers (codes "INBOX") (some 5) s in
      elim r [
        | err e ↦ exits 1 before (codes "fetch_headers failed: " ++ show_error e) (some t)
        | ok headers ↦ record {
          printed = before ++ map header_text headers;
          complained = [];
          session = some (logout world.imap t);
          code = 0;
        }
      ]

  unfoldable pub list_all : List Text → S → Report S
  list_all printed s =
      let before = printed ++ (codes "\n--- folders ---" ∷ []) in
      let (r, t) = (rust_imap world.lossy world.imap).list_folders s in
      elim r [
        | err e ↦ exits 1 before (codes "list_folders failed: " ++ show_error e) (some t)
        | ok folders ↦ list_messages (before ++ map folder_text folders) t
      ]

  unfoldable pub connected : AccountConfig → Text → Report S
  connected cfg password =
      let greeting =
        codes "connecting to "
        ++ (cfg.imap_host
            ++ (codes ":" ++ (show cfg.imap_port ++ (codes " as " ++ cfg.username)))) in
      elim (connect world.connection cfg password) [
        | err e ↦ exits 1 (greeting ∷ []) (codes "connect failed: " ++ show_error e) none
        | ok s ↦ list_all (greeting ∷ []) s
      ]

  unfoldable pub main : Report S
  main = elim (world.env (codes "IMAP_USER")) [
    | err e ↦ exits 2 [] (codes "error: IMAP_USER not set") none
    | ok user ↦ elim (world.env (codes "IMAP_PASSWORD")) [
      | err e ↦ exits 2 [] (codes "error: IMAP_PASSWORD not set") none
      | ok password ↦ connected (plausiden (host_of (world.env (codes "IMAP_HOST"))) user) password
    ]
  ]
