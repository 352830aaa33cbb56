-- ===== src/Smtp/Recipients.antt =====
-- `send_message` of smtp.rs: what it hands to the transport.
use thundercrab.Prelude.{
  ◌≡◌, refl, ap, Text, none, List, [], ◌∷◌, map, Result, ok, err, arith, ok_of_bind, Result-cases,
  Option-cases, inl, inr, ◌⊎◌, ◌↔◌,
}
use thundercrab.Backend.{BackendError, AccountConfig}
use thundercrab.Smtp.{
  SmtpEncryption, OutboundMessage, Email, Submission, Mailer, Delivery, parse_mailbox, parse_all,
  composed, build, submit, send_message,
}

module _ {M : Type 0} (mailer : Mailer M) where
  -- The e-mail is the message, each address in its place.
  abbrev pub IsEmailOf : OutboundMessage → Email M → Type 0
  IsEmailOf message email =
      (mailer.parse message.from ≡ ok email.from)
      × (map mailer.parse message.to ≡ map ok email.to)
      × (map mailer.parse message.cc ≡ map ok email.cc)
      × (email.subject ≡ message.subject)
      × (email.body ≡ message.body)

  parsed : (s : Text) (m : M) → parse_mailbox mailer s ≡ ok m → mailer.parse s ≡ ok m
  parsed s m h = ground (arith, Result-cases (mailer.parse s))

  parsed_all :
      (l : List Text) (ms : List M) → parse_all mailer l ≡ ok ms → map mailer.parse l ≡ map ok ms
  unfolding parse_all
  parsed_all [] ms h = let e : [] ≡ ms = ground arith in ap (map ok) e
  parsed_all (s ∷ l) ms h =
      let (m, e, k) = ok_of_bind (parse_mailbox mailer s) _ ms h in
      let (rest, f, q) = ok_of_bind (parse_all mailer l) _ ms k in
      let whole : (m ∷ rest) ≡ ms = ground arith in
      cc (parsed s m e, parsed_all l rest f, ap (map {B = Result M Text} ok) whole)

  composed_same : (email result : Email M) → composed mailer email ≡ ok result → result ≡ email
  composed_same email result h = ground (arith, Option-cases (mailer.compose email))

  build-IsEmailOf :
      (message : OutboundMessage) (email : Email M)
      → build mailer message ≡ ok email
      → IsEmailOf message email
  unfolding build
  build-IsEmailOf message email h =
      let (from, e, k) = ok_of_bind (parse_mailbox mailer message.from) _ email h in
      let (to, f, l) = ok_of_bind (parse_all mailer message.to) _ email k in
      let (cc_list, g, m) = ok_of_bind (parse_all mailer message.cc) _ email l in
      rw (composed_same _ email m) (
        parsed message.from from e,
        parsed_all message.to to f,
        parsed_all message.cc cc_list g,
        refl,
        refl,
      )

  -- What is handed over for a message: to the configured host and port, by the given encryption, with
  -- the credentials.
  abbrev pub IsFor : AccountConfig → Text → SmtpEncryption → OutboundMessage → Submission M → Type 0
  IsFor cfg password encryption message s =
      (s.encryption ≡ encryption)
      × (s.host ≡ cfg.smtp_host)
      × (s.port ≡ cfg.smtp_port)
      × (s.username ≡ cfg.username)
      × (s.password ≡ password)
      × IsEmailOf message s.email

  -- Nothing was handed over and sending has failed, before the transport; or one submission was, and
  -- the transport decides.
  abbrev pub IsDelivery :
      AccountConfig → Text → SmtpEncryption → OutboundMessage → Delivery M → Type 0
  IsDelivery cfg password encryption message (submissions, r) =
      ((submissions ≡ []) × ((e : BackendError) × (r ≡ err e)))
      ⊎ ((s : Submission M) × (submissions ≡ s ∷ [])
          × IsFor cfg password encryption message s
          × (r ≡ ok tt ↔ mailer.send s ≡ none))

  submit_iff : (s : Submission M) → (submit mailer s).1 ≡ ok tt ↔ mailer.send s ≡ none
  unfolding submit
  submit_iff s = ground (arith, Option-cases (mailer.send s))

  -- A message is handed to the transport at most once, to the configured server with the credentials,
  -- and then with exactly its recipients, each parsed, in their order, with its subject and its body;
  -- sending succeeds just if it is handed over and the transport accepts it. An address that is
  -- refused keeps the whole message back.
  pub send_message-IsDelivery :
      (cfg : AccountConfig) (password : Text) (encryption : SmtpEncryption)
      (message : OutboundMessage)
      → IsDelivery cfg password encryption message
          (send_message mailer cfg password encryption message)
  unfolding send_message submit
  send_message-IsDelivery cfg password encryption message =
      elim (Result-cases (build mailer message)) [
        | inr (e, p) ↦ rw (p, send_message) (inl (refl, (e, refl)))
        | inl (email, p) ↦ elim (Option-cases (mailer.relay encryption cfg.smtp_host)) [
          | inr (e, q) ↦ rw (p, q, send_message) (inl (refl, (_, refl)))
          | inl q ↦
              rw (p, q, send_message)
                (inr (
                  _,
                  refl,
                  (refl, refl, refl, refl, refl, build-IsEmailOf message email p),
                  submit_iff _,
                ))
        ]
      ]
