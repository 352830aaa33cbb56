-- ===== src/Smtp.antt =====
-- thundercrab-imap/src/smtp.rs: `send_message`. The mail library is not in this repository: its parser
-- of mailboxes, its composer and its transport are given.
pub mod Recipients
pub mod Tests
use thundercrab.Prelude.{
  ℕ, Text, codes, ◌++◌, Option, none, some, List, [], ◌∷◌, Result, ok, err, map_err, ◌>>=◌,
}
use thundercrab.Prelude.Sql.{Fault, run}
use thundercrab.Backend.{BackendError, transport, protocol, AccountConfig}

pub data SmtpEncryption : Type 0 where
  start_tls implicit_tls : SmtpEncryption

pub record OutboundMessage : Type 0 where
  pub from : Text
  pub to : List Text
  pub cc : List Text
  pub subject : Text
  pub body : Text

-- What the builder of the library holds, over its mailboxes.
pub record Email (M : Type 0) : Type 0 where
  pub from : M
  pub subject : Text
  pub to : List M
  pub cc : List M
  pub body : Text

-- An e-mail that is handed to a transport, and how the transport is set up.
pub record Submission (M : Type 0) : Type 0 where
  pub encryption : SmtpEncryption
  pub host : Text
  pub port : ℕ
  pub username : Text
  pub password : Text
  pub email : Email M

-- The library: whether it parses a mailbox, composes an e-mail, finds its relay and sends. `debug` is
-- how a string is shown in an error.
pub record Mailer (M : Type 0) : Type 0 where
  pub parse : Text → Result M Text
  pub debug : Text → Text
  pub compose : Email M → Fault
  pub relay : SmtpEncryption → Text → Fault
  pub send : Submission M → Fault

-- What is handed to the transport, and how sending ends.
abbrev pub Delivery : Type 0 → Type 0
Delivery M = List (Submission M) × Result (Unit {0}) BackendError

module _ {M : Type 0} (mailer : Mailer M) where
  abbrev pub parse_mailbox : Text → Result M BackendError
  parse_mailbox s =
      map_err (λ e. protocol (codes "mailbox " ++ (mailer.debug s ++ (codes ": " ++ e))))
        (mailer.parse s)

  -- The mailboxes of a list, up to the first that is refused.
  unfoldable pub parse_all : List Text → Result (List M) BackendError
  parse_all [] = ok []
  parse_all (s ∷ rest) = parse_mailbox s >>= λ m. parse_all rest >>= λ ms. ok (m ∷ ms)

  abbrev pub composed : Email M → Result (Email M) BackendError
  composed email =
      map_err (λ e. protocol (codes "compose: " ++ e)) (run (mailer.compose email) email)

  unfoldable pub build : OutboundMessage → Result (Email M) BackendError
  build message = parse_mailbox message.from >>= λ from. parse_all message.to >>= λ to.
      parse_all message.cc >>= λ cc.
      composed
        (record { from = from; subject = message.subject; to = to; cc = cc; body = message.body })

  unfoldable pub submit : Submission M → Delivery M
  submit s =
      (s ∷ [], map_err (λ e. transport (codes "smtp send: " ++ e)) (run {0} (mailer.send s) tt))

  unfoldable pub send_message : AccountConfig → Text → SmtpEncryption → OutboundMessage → Delivery M
  send_message cfg password encryption message = elim (build message) [
    | err e ↦ ([], err e)
    | ok email ↦ elim (mailer.relay encryption cfg.smtp_host) [
      | some e ↦ ([], err (transport (codes "smtp builder: " ++ e)))
      | none ↦ submit (record {
        encryption = encryption;
        host = cfg.smtp_host;
        port = cfg.smtp_port;
        username = cfg.username;
        password = password;
        email = email;
      })
    ]
  ]
