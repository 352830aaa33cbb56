-- ===== src/Cli/Tests.antt =====
-- Runs of the commands, and their theorems at concrete inputs.
use thundercrab.Prelude.{
  arith, true, ◌≡◌, refl, Text, text_eq, codes, none, some, [], ◌∷◌, ok, err, All, if◌then◌else◌,
  map,
}
use thundercrab.Prelude.Decimal.{decimal}
use thundercrab.Prelude.Strings.{
  is_whitespace, trim_start_by, trim_end_by, strip_prefix, split_last,
}
use thundercrab.Backend.{show_error}
use thundercrab.Sieve.Base64.{char_at, base64_encode}
use thundercrab.Sieve.Quoted.{escape_char, escape_quoted}
use thundercrab.Sieve.Tests.Stream.{Input, split_line, read_line, read_exact, over_bytes}
use thundercrab.Sieve.Response.{
  parse_digits, parse_usize, parse_literal_marker, terminator, drain, handle_line, round,
  read_rounds, read_response,
}
use thundercrab.Sieve.Session.{Network, need, write, answered, secured, over_tls, put_active_script}
use thundercrab.Imap.Session.{and_then, connect, collect}
use thundercrab.Imap.Folders.{statuses, list_folders}
use thundercrab.Imap.Tests.Server.{Held, server, at_inbox}
use thundercrab.Smtp.{parse_all, build, submit, send_message}
use thundercrab.Smtp.Tests.Library.{library}
use thundercrab.Cli.{
  fetch, Command, list, send, World, cmd_list, cmd_push_sieve, prepare, cmd_send, load_config, run,
  main,
}
use mathlib.Core.Path.{subst}
use thundercrab.Imap.ReadOnly.{Keeps, Kept}
use thundercrab.Cli.ReadOnly.{run-Kept}
use thundercrab.Cli.Sending.{IsAsked, run-submitted}

runs : Unit {0}
unfolding decimal is_whitespace trim_start_by trim_end_by strip_prefix split_last show_error char_at
    base64_encode escape_char escape_quoted split_line read_line read_exact parse_digits parse_usize
    parse_literal_marker terminator drain handle_line round read_rounds read_response need write
    answered secured over_tls put_active_script and_then connect collect statuses list_folders
    parse_all build submit send_message cmd_list cmd_push_sieve prepare cmd_send load_config run
    main text_eq
runs = tt

abbrev replies : Text → Input
replies s = record { bytes = s; failure = none }

abbrev network : Network Input
network = record {
  connect = none;
  clear_input = replies (codes "OK\r\nOK\r\n");
  starttls_write = none;
  server_name = none;
  handshake = λ s. ok (replies (codes "OK\r\nOK\r\nOK\r\nOK\r\n"));
  auth_write = none;
  auth_trailer = none;
  put_write = none;
  put_body = none;
  put_trailer = none;
  active_write = none;
  active_trailer = none;
}

abbrev world : World Held Text Input
world = record {
  env = λ name. ok (if text_eq name (codes "IMAP_USER") then codes "u@h" else codes "h");
  read_file = λ path. ok (codes "keep;");
  connection = record {
    tcp = none;
    server_name = none;
    handshake = none;
    login = λ user password. ok at_inbox;
  };
  imap = server;
  lossy = λ bytes. bytes;
  reader = over_bytes (λ bytes. some bytes);
  network = network;
  mailer = library;
}

lists :
    (run world list).printed
    ≡ codes "UNREAD   TOTAL  FOLDER"
      ∷ codes "     1       2  INBOX"
      ∷ codes "     1       2  Archive"
      ∷ []
unfolding runs
lists = refl

abbrev mail : Text → Command
mail encryption = send (codes "a@b" ∷ []) [] (codes "s") (codes "@file") encryption

sends : map (λ s. s.email.body) (run world (mail (codes "implicit"))).submitted ≡ codes "keep;" ∷ []
unfolding runs
sends = refl

-- The port does not follow the encryption.
implicit_port : map (λ s. s.port) (run world (mail (codes "implicit"))).submitted ≡ 587 ∷ []
unfolding runs
implicit_port = refl

unknown_encryption :
    (run world (mail (codes "tls"))).result
    ≡ err (codes "unknown encryption tls, expected starttls|implicit")
unfolding runs
unknown_encryption = refl

run-submitted_example :
    All (IsAsked world (mail (codes "starttls"))) (run world (mail (codes "starttls"))).submitted
run-submitted_example = run-submitted world (mail (codes "starttls"))

abbrev unset : World Held Text Input
unset = record world { env = λ name. err (codes "environment variable not found") }

exits_with_1 :
    (main unset list).1 ≡ (1, codes "crab: IMAP_HOST not set: environment variable not found" ∷ [])
unfolding runs
exits_with_1 = refl

-- The message stays in INBOX.
abbrev InInbox : Held → Type 0
InInbox s = s.1 (codes "INBOX") ≡ true

reading : Keeps world.connection world.imap InInbox
unfolding text_eq
reading = record {
  login = λ user password s e. let same : at_inbox ≡ s = ground arith in subst InInbox same refl;
  list = λ reference pattern s h. h;
  status = λ name items s h. h;
  examine = λ name s h. h;
  fetch = λ range s h. h;
  logout = λ s h. h;
}

run-Kept_example : Kept InInbox (run world (fetch (codes "INBOX") 10)).session
run-Kept_example = run-Kept world InInbox reading (fetch (codes "INBOX") 10)
