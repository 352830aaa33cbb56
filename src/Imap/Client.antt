-- ===== src/Imap/Client.antt =====
-- thundercrab-imap/src/rust_imap.rs: `impl Backend for RustImapBackend`.
use thundercrab.Prelude.{Text}
use thundercrab.Prelude.Strings.{Bytes}
use thundercrab.Backend.{Backend}
use thundercrab.Imap.Session.{Commands}
use thundercrab.Imap.Folders.{list_folders, put_sieve}
use thundercrab.Imap.Fetch.{fetch_headers}
use thundercrab.Imap.Move.{move_message, set_flag}

abbrev pub rust_imap {ℓ} : {S : Type ℓ} → (Bytes → Text) → Commands S → Backend S
rust_imap lossy imap = record {
  list_folders = list_folders imap;
  fetch_headers = fetch_headers lossy imap;
  move_message = move_message imap;
  set_flag = set_flag imap;
  put_sieve = put_sieve;
}
