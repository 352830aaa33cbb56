-- ===== src/Smtp/Tests/Library.antt =====
-- A mail library for the runs: an address has an at sign, and nothing fails.
use thundercrab.Prelude.{Text, codes, none, ok, err, any, ◌==◌, if◌then◌else◌}
use thundercrab.Smtp.{Mailer}

abbrev pub library : Mailer Text
library = record {
  parse = λ s. if any (λ c. c == b'@') s then ok s else err (codes "no at sign");
  debug = λ s. s;
  compose = λ email. none;
  relay = λ encryption host. none;
  send = λ submission. none;
}
