-- ===== src/Cli.antt =====
-- thundercrab-cli/src/main.rs: the commands, over the environment, the files and the three clients.
-- The parsing of the arguments is not in this repository. The texts of arguments and files are their
-- UTF-8 bytes, as in Sieve/Session. An error is its text as `main` prints it, with its context in
-- front.
pub mod Lines
pub mod Inert
pub mod Encryption
pub mod Sending
pub mod Pushing
pub mod ReadOnly
mod Tests
use thundercrab.Prelude.{
  ℕ, zero, suc, ◌-◌, ◌||◌, Bool, true, false, Text, codes, text_eq, ◌++◌, Option, none, some, List,
  [], ◌∷◌, map, length, Result, ok, err, map_err, ◌>>=◌, ◌==◌, if◌then◌else◌,
}
use thundercrab.Prelude.Decimal.{show}
use thundercrab.Backend.{
  AccountConfig, plausiden, FolderSummary, MessageHeaders, BackendError, show_error,
}
use thundercrab.Cli.Lines.{folder_line, fetch_lines}
use thundercrab.Imap.Session.{Connection, Commands, connect, logout}
use thundercrab.Imap.Client.{rust_imap}
use thundercrab.Prelude.Strings.{Bytes}
use thundercrab.Sieve.Reader.{Reader}
use thundercrab.Sieve.Session.{Network, Sent, put_active_script}
use thundercrab.Smtp.{
  SmtpEncryption, start_tls, implicit_tls, OutboundMessage, Submission, Mailer, send_message,
}

-- `Cmd`
pub data Command : Type 0 where
  list : Command
  fetch : (folder : Text) → (limit : ℕ) → Command
  push_sieve : (name path : Text) → Command
  send : (to cc : List Text) → (subject body encryption : Text) → Command

-- What the program runs in: its environment, the files, and what the clients are given.
pub record World (S M R : Type 0) : Type 0 where
  pub env : Text → Result Text Text
  pub read_file : Text → Result Text Text
  pub connection : Connection S
  pub imap : Commands S
  pub lossy : Bytes → Text
  pub reader : Reader R
  pub network : Network R
  pub mailer : Mailer M

-- What a run has printed, the IMAP session it had, what it sent over ManageSieve and handed to the
-- mail transport, and how it ended.
pub record Report (S M : Type 0) : Type 0 where
  pub printed : List Text
  pub session : Option S
  pub sent : List Sent
  pub submitted : List (Submission M)
  pub result : Result (Unit {0}) Text

-- `--body @file` reads the body from a file.
abbrev pub body_of : (Text → Result Text Text) → Text → Result Text Text
body_of read [] = ok []
body_of read (c ∷ s) =
    if c == b'@'
    then map_err (λ e. codes "reading body from " ++ (s ++ (codes ": " ++ e))) (read s)
    else ok (c ∷ s)

abbrev pub encryption_of : (Text → Text) → Text → Result SmtpEncryption Text
encryption_of debug s =
    if text_eq s (codes "starttls")
    then ok start_tls
    else if text_eq s (codes "implicit")
    then ok implicit_tls
    else err (codes "unknown encryption " ++ (debug s ++ codes ", expected starttls|implicit"))

abbrev pub message_of : AccountConfig → List Text → List Text → Text → Text → OutboundMessage
message_of cfg to cc_list subject body = record {
  from = cfg.username;
  to = to;
  cc = cc_list;
  subject = subject;
  body = body;
}

module _ {S M R : Type 0} (world : World S M R) where
  abbrev pub ended : Option S → Result (Unit {0}) Text → Report S M
  ended session r = record {
    printed = [];
    session = session;
    sent = [];
    submitted = [];
    result = r;
  }

  abbrev pub failed : Text → Report S M
  failed e = ended none (err e)

  abbrev pub printing : List Text → S → Report S M
  printing lines s = record (ended (some (logout world.imap s)) (ok tt)) { printed = lines }

  unfoldable pub cmd_list : AccountConfig → Text → Report S M
  cmd_list cfg password = elim (connect world.connection cfg password) [
    | err e ↦ failed (codes "connect: " ++ show_error e)
    | ok s ↦
        let (r, t) = (rust_imap world.lossy world.imap).list_folders s in
        elim r [
          | err e ↦ ended (some t) (err (codes "list_folders: " ++ show_error e))
          | ok folders ↦ printing (codes "UNREAD   TOTAL  FOLDER" ∷ map folder_line folders) t
        ]
  ]

  unfoldable pub cmd_fetch : AccountConfig → Text → Text → ℕ → Report S M
  cmd_fetch cfg password folder limit = elim (connect world.connection cfg password) [
    | err e ↦ failed (codes "connect: " ++ show_error e)
    | ok s ↦
        let (r, t) = (rust_imap world.lossy world.imap).fetch_headers folder (some limit) s in
        elim r [
          | err e ↦ ended (some t) (err (codes "fetch_headers: " ++ show_error e))
          | ok headers ↦ printing (fetch_lines folder headers) t
        ]
  ]

  abbrev pub pushed : Text → Text → Result (Unit {0}) BackendError → Report S M
  pushed name script (err e) = failed (codes "put_active_script: " ++ show_error e)
  pushed name script (ok u) = record (ended none (ok tt)) {
    printed =
        (codes "ok: pushed "
          ++ (show (length script) ++ (codes " bytes as `" ++ (name ++ codes "`, set active"))))
        ∷ [];
  }

  unfoldable pub cmd_push_sieve : AccountConfig → Text → Text → Text → Report S M
  cmd_push_sieve cfg password name path = elim (world.read_file path) [
    | err e ↦ failed (codes "reading " ++ (path ++ (codes ": " ++ e)))
    | ok script ↦
        let (sent, r) = put_active_script world.reader world.network cfg password name script in
        record (pushed name script r) { sent = sent }
  ]

  abbrev pub delivered : Result (Unit {0}) BackendError → Report S M
  delivered (err e) = failed (codes "send_message: " ++ show_error e)
  delivered (ok u) = record (ended none (ok tt)) { printed = codes "ok: sent" ∷ [] }

  -- The message and its encryption, if the arguments make one.
  unfoldable pub prepare :
      AccountConfig
      → List Text
      → List Text
      → Text
      → Text
      → Text
      → Result (SmtpEncryption × OutboundMessage) Text
  prepare cfg [] cc_list subject body encryption =
      err (codes "at least one --to recipient required")
  prepare cfg (first ∷ to) cc_list subject body encryption =
      body_of world.read_file body >>= λ text.
      encryption_of world.mailer.debug encryption >>= λ enc.
      ok (enc, message_of cfg (first ∷ to) cc_list subject text)

  unfoldable pub cmd_send :
      AccountConfig → Text → List Text → List Text → Text → Text → Text → Report S M
  cmd_send cfg password to cc_list subject body encryption =
      elim (prepare cfg to cc_list subject body encryption) [
        | err e ↦ failed e
        | ok (enc, message) ↦
            let (submitted, r) = send_message world.mailer cfg password enc message in
            record (delivered r) { submitted = submitted }
      ]

  abbrev pub required : Text → Text → Result Text Text
  required name context = map_err (λ e. context ++ (codes ": " ++ e)) (world.env name)

  unfoldable pub load_config : Result AccountConfig Text
  load_config = required (codes "IMAP_HOST") (codes "IMAP_HOST not set") >>= λ host.
      required (codes "IMAP_USER") (codes "IMAP_USER not set") >>= λ user. ok (plausiden host user)

  abbrev pub dispatch : AccountConfig → Text → Command → Report S M
  dispatch cfg password list = cmd_list cfg password
  dispatch cfg password (fetch folder limit) = cmd_fetch cfg password folder limit
  dispatch cfg password (push_sieve name path) = cmd_push_sieve cfg password name path
  dispatch cfg password (send to cc_list subject body encryption) =
      cmd_send cfg password to cc_list subject body encryption

  unfoldable pub run : Command → Report S M
  run command = elim load_config [
    | err e ↦ failed e
    | ok cfg ↦ elim (required (codes "IMAP_PASSWORD") (codes "IMAP_PASSWORD env var must be set")) [
      | err e ↦ failed e
      | ok password ↦ dispatch cfg password command
    ]
  ]

  -- The exit code and what is written to the standard error.
  abbrev pub exit_of : Result (Unit {0}) Text → ℕ × List Text
  exit_of (ok u) = (0, [])
  exit_of (err e) = (1, (codes "crab: " ++ e) ∷ [])

  unfoldable pub main : Command → Report S M × (ℕ × List Text)
  main command = let report = run command in (report, exit_of report.result)
