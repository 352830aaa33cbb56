-- ===== src/ListInbox/Tests.antt =====
-- Runs of the program.
use thundercrab.Prelude.{◌≡◌, refl, codes, text_eq, none, [], ◌∷◌, ok, err, if◌then◌else◌}
use thundercrab.Prelude.Decimal.{decimal}
use thundercrab.Backend.{show_error}
use thundercrab.Imap.Session.{and_then, connect, collect}
use thundercrab.Imap.Folders.{statuses, list_folders}
use thundercrab.Imap.Fetch.{fetch_headers, fetch_range, messages}
use thundercrab.Imap.Tests.Server.{Held, at_inbox, server}
use thundercrab.ListInbox.{World, list_messages, list_all, connected, main}

runs : Unit {0}
unfolding decimal show_error and_then connect collect statuses list_folders fetch_headers
    fetch_range messages list_messages list_all connected main text_eq
runs = tt

abbrev world : World Held
world = record {
  env = λ name. if text_eq name (codes "IMAP_HOST") then err (codes "x") else ok (codes "u");
  connection = record {
    tcp = none;
    server_name = none;
    handshake = none;
    login = λ user password. ok at_inbox;
  };
  imap = server;
  lossy = λ bytes. bytes;
  debug = λ s. s;
}

abbrev unset : World Held
unset = record world { env = λ name. err (codes "x") }

no_user : main unset ≡ record {
  printed = [];
  complained = codes "error: IMAP_USER not set" ∷ [];
  session = none;
  code = 2;
}
unfolding runs
no_user = refl

lists :
    (main world).printed
    ≡ codes "connecting to mail.plausiden.com:993 as u"
      ∷ codes "\n--- folders ---"
      ∷ codes "       1 unread /      2 total   INBOX"
      ∷ codes "       1 unread /      2 total   Archive"
      ∷ codes "\n--- INBOX (most recent 5) ---"
      ∷ []
unfolding runs
lists = refl
