-- ===== src/Cli/Sending.antt =====
-- `cmd_send` of thundercrab-cli/src/main.rs: which messages a run hands to the mail transport.
use mathlib.Core.Path.{subst}
use thundercrab.Prelude.{
  ℕ, ◌≡◌, ◌≢◌, refl, sym, ap, ◌∙◌, Text, codes, some, List, [], ◌∷◌, map, ok, All, arith,
  ok_of_bind, inl, inr, Result-cases, ◌⊎◌, Bool-cases, ◌==◌, ==_iff,
}
use thundercrab.Backend.{AccountConfig, plausiden}
use thundercrab.Smtp.{OutboundMessage, Submission, SmtpEncryption, send_message}
use thundercrab.Smtp.Recipients.{IsFor, send_message-IsDelivery}
use thundercrab.Imap.Session.{connect}
use thundercrab.Imap.Folders.{list_folders}
use thundercrab.Imap.Fetch.{fetch_headers}
use thundercrab.Sieve.Session.{put_active_script}
use thundercrab.Cli.Encryption.{IsSecured, IsSecured-on_587, encryption_of-IsEncryption}
use thundercrab.Cli.{
  Command, list, fetch, push_sieve, send, World, body_of, encryption_of, message_of, prepare,
  cmd_list, cmd_fetch, cmd_push_sieve, cmd_send, required, load_config, dispatch, run,
}

module _ {S M R : Type 0} (world : World S M R) where
  -- The body of a command: what the file holds that `@` names, or the text itself.
  abbrev pub IsBody : Text → Text → Type 0
  IsBody [] text = text ≡ []
  IsBody (c ∷ s) text = ((c ≡ b'@') × (world.read_file s ≡ ok text)) ⊎ ((c ≢ b'@') × (text ≡ c ∷ s))

  body_of-IsBody : (body text : Text) → body_of world.read_file body ≡ ok text → IsBody body text
  body_of-IsBody [] text h = ground arith
  body_of-IsBody (c ∷ s) text h = elim (Bool-cases (c == b'@')) [
    | inl t ↦ elim (Result-cases (world.read_file s)) [
      | inl (x, e) ↦
          let k : ok x ≡ ok text = rw (t, e) at h in
          let same : x ≡ text = ground arith in inl ((==_iff c b'@').0 t, e ∙ ap ok same)
      | inr (x, e) ↦ absurd (ground arith)
    ]
    | inr f ↦
        let k : ok (c ∷ s) ≡ ok text = rw f at h in
        let same : c ∷ s ≡ text = ground arith in inr ((λ e. ground arith), sym same)
  ]

  -- What a command asks to be sent: only `send` with a recipient and an encryption that it knows does.
  abbrev pub IsAsked : Command → Submission M → Type 0
  IsAsked (send to cc_list subject body encryption) s =
      (to ≢ [])
      × (map world.mailer.parse to ≡ map ok s.email.to)
      × (map world.mailer.parse cc_list ≡ map ok s.email.cc)
      × (s.email.subject ≡ subject)
      × IsBody body s.email.body
      × IsSecured encryption s.encryption s.port
  IsAsked list s = ⊥
  IsAsked (fetch folder limit) s = ⊥
  IsAsked (push_sieve name path) s = ⊥

  cmd_list_none :
      (cfg : AccountConfig) (password : Text) → (cmd_list world cfg password).submitted ≡ []
  unfolding cmd_list
  cmd_list_none cfg password = elim (Result-cases (connect world.connection cfg password)) [
    | inr (x, e) ↦ rw (e, cmd_list) refl
    | inl (s, e) ↦ elim (Result-cases (list_folders world.imap s).0) [
      | inr (x, p) ↦ rw (e, p, cmd_list) refl
      | inl (l, p) ↦ rw (e, p, cmd_list) refl
    ]
  ]

  cmd_fetch_none :
      (cfg : AccountConfig) (password folder : Text) (limit : ℕ)
      → (cmd_fetch world cfg password folder limit).submitted ≡ []
  unfolding cmd_fetch
  cmd_fetch_none cfg password folder limit =
      elim (Result-cases (connect world.connection cfg password)) [
        | inr (x, e) ↦ rw (e, cmd_fetch) refl
        | inl (s, e) ↦
            elim (Result-cases (fetch_headers world.lossy world.imap folder (some limit) s).0) [
              | inr (x, p) ↦ rw (e, p, cmd_fetch) refl
              | inl (l, p) ↦ rw (e, p, cmd_fetch) refl
            ]
      ]

  cmd_push_sieve_none :
      (cfg : AccountConfig) (password name path : Text)
      → (cmd_push_sieve world cfg password name path).submitted ≡ []
  unfolding cmd_push_sieve
  cmd_push_sieve_none cfg password name path = elim (Result-cases (world.read_file path)) [
    | inr (x, e) ↦ rw (e, cmd_push_sieve) refl
    | inl (script, e) ↦
        elim (Result-cases
          (put_active_script world.reader world.network cfg password name script).1) [
            | inr (x, p) ↦ rw (e, p, cmd_push_sieve) refl
            | inl (l, p) ↦ rw (e, p, cmd_push_sieve) refl
          ]
  ]

  prepare_okay :
      (cfg : AccountConfig) (to cc_list : List Text) (subject body encryption : Text)
      (enc : SmtpEncryption) (message : OutboundMessage)
      → prepare world cfg to cc_list subject body encryption ≡ ok (enc, message)
      → (to ≢ [])
        × (encryption_of world.mailer.debug encryption ≡ ok enc)
        × ((text : Text) × (body_of world.read_file body ≡ ok text)
            × (message_of cfg to cc_list subject text ≡ message))
  unfolding prepare
  prepare_okay cfg [] cc_list subject body encryption enc message h = absurd (ground arith)
  prepare_okay cfg (first ∷ to) cc_list subject body encryption enc message h =
      let (text, e, k) = ok_of_bind (body_of world.read_file body) _ (enc, message) h in
      let (found, f, l) =
        ok_of_bind (encryption_of world.mailer.debug encryption) _ (enc, message) k in
      let made : message_of cfg (first ∷ to) cc_list subject text ≡ message = ground arith in
      let same : found ≡ enc = ground arith in
      ((λ p. ground arith), f ∙ ap ok same, (text, e, made))

  asked_of_delivery :
      (cfg : AccountConfig) (password : Text) (enc : SmtpEncryption) (message : OutboundMessage)
      (P : Submission M → Type 0)
      → ((s : Submission M) → IsFor world.mailer cfg password enc message s → P s)
      → All P (send_message world.mailer cfg password enc message).0
  asked_of_delivery cfg password enc message P f =
      elim (send_message-IsDelivery world.mailer cfg password enc message) [
        | inl (e, failed) ↦ subst (All P) (sym e) tt
        | inr (s, e, is_for, iff) ↦ subst (All P) (sym e) (f s is_for, tt)
      ]

  cmd_send-submitted :
      (cfg : AccountConfig) (password : Text) (to cc_list : List Text)
      (subject body encryption : Text)
      → cfg.smtp_port ≡ 587
      → All
          (IsAsked (send to cc_list subject body encryption))
          (cmd_send world cfg password to cc_list subject body encryption).submitted
  unfolding cmd_send
  cmd_send-submitted cfg password to cc_list subject body encryption port =
      elim (Result-cases (prepare world cfg to cc_list subject body encryption)) [
        | inr (x, e) ↦ rw (e, cmd_send) tt
        | inl ((enc, message), e) ↦
            let (some_to, known, (text, read, made)) =
              prepare_okay cfg to cc_list subject body encryption enc message e in
            rw (e, cmd_send)
              (asked_of_delivery cfg password enc message
                (IsAsked (send to cc_list subject body encryption))
                λ s (same_enc, host, same_port, user, pw, (from, tos, ccs, subj, bod)). (
                  some_to,
                  ap (λ m. map world.mailer.parse m.to) made ∙ tos,
                  ap (λ m. map world.mailer.parse m.cc) made ∙ ccs,
                  subj ∙ ap (λ m. m.subject) (sym made),
                  body_of-IsBody body s.email.body
                      (read ∙ ap (λ m. ok m.body) made ∙ ap ok (sym bod)),
                  IsSecured-on_587 encryption s.encryption s.port
                      (encryption_of-IsEncryption world.mailer.debug encryption s.encryption
                        (known ∙ ap ok (sym same_enc)))
                      (same_port ∙ port),
                ))
      ]

  config_port : (cfg : AccountConfig) → load_config world ≡ ok cfg → cfg.smtp_port ≡ 587
  unfolding load_config
  config_port cfg h =
      let (host, _, k) =
        ok_of_bind (required world (codes "IMAP_HOST") (codes "IMAP_HOST not set")) _ cfg h in
      let (user, _, l) =
        ok_of_bind (required world (codes "IMAP_USER") (codes "IMAP_USER not set")) _ cfg k in
      let made : plausiden host user ≡ cfg = ground arith in ap (λ c. c.smtp_port) (sym made)

  dispatch-submitted :
      (cfg : AccountConfig) (password : Text) (command : Command)
      → cfg.smtp_port ≡ 587
      → All (IsAsked command) (dispatch world cfg password command).submitted
  dispatch-submitted cfg password list port =
      subst (All (IsAsked list)) (sym (cmd_list_none cfg password)) tt
  dispatch-submitted cfg password (fetch folder limit) port =
      subst (All (IsAsked (fetch folder limit))) (sym (cmd_fetch_none cfg password folder limit)) tt
  dispatch-submitted cfg password (push_sieve name path) port =
      subst (All (IsAsked (push_sieve name path)))
        (sym (cmd_push_sieve_none cfg password name path)) tt
  dispatch-submitted cfg password (send to cc_list subject body encryption) port =
      cmd_send-submitted cfg password to cc_list subject body encryption port

  -- No command hands a message to the mail transport but `send`, and that only if there is a recipient
  -- and the encryption is the word starttls or implicit, which is then the encryption that is used; the
  -- message has exactly the recipients of the command, in their order, its subject, and the body of
  -- the command or, if that begins with `@`, of the file that the rest names. With starttls the
  -- port is 587.
  pub run-submitted : (command : Command) → All (IsAsked command) (run world command).submitted
  unfolding run
  run-submitted command = elim (Result-cases (load_config world)) [
    | inr (x, e) ↦ rw (e, run) tt
    | inl (cfg, e) ↦ elim (Result-cases (world.env (codes "IMAP_PASSWORD"))) [
      | inr (x, p) ↦ rw (e, p, run) tt
      | inl (password, p) ↦
          rw (e, p, run) (dispatch-submitted cfg password command (config_port cfg e))
    ]
  ]
