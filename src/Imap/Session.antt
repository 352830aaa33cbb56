-- ===== src/Imap/Session.antt =====
-- The session of `async_imap` that thundercrab-imap/src/rust_imap.rs holds, which is not in this
-- repository; `RustImapBackend::connect`, and how the methods chain its calls.
use thundercrab.Prelude.{
  ℕ, Text, codes, ◌++◌, Option, List, [], ◌∷◌, Result, ok, err, map_err, map, ◌≡◌, ap, ◌∙◌, arith,
  inl, inr, Result-cases,
}
use thundercrab.Prelude.Sql.{Fault, run}
use thundercrab.Backend.{BackendError, transport, auth, protocol, AccountConfig, Method}
use thundercrab.Prelude.Strings.{Bytes}

-- What STATUS and EXAMINE report of a folder.
pub record Mailbox : Type 0 where
  pub exists : ℕ
  pub unseen : Option ℕ

pub record Address : Type 0 where
  pub mailbox : Option Bytes
  pub host : Option Bytes

pub record Envelope : Type 0 where
  pub from : Option (List Address)
  pub subject : Option Bytes

pub record Fetched : Type 0 where
  pub uid : Option ℕ
  pub envelope : Option Envelope
  pub header : Option Bytes

abbrev pub Call {ℓ} : Type ℓ → Type 0 → Type ℓ
Call S A = S → Result A Text × S

-- The items of a stream, each of which may be an error.
abbrev pub Items : Type 0 → Type 0
Items A = List (Result A Text)

-- The commands, on the state of the connection and of the server behind it.
pub record Commands {ℓ} (S : Type ℓ) : Type ℓ where
  pub list : Text → Text → Call S (Items Text)
  pub status : Text → Text → Call S Mailbox
  pub examine : Text → Call S Mailbox
  pub select : Text → Call S (Unit {0})
  pub fetch : Text → Text → Call S (Items Fetched)
  pub uid_mv : Text → Text → Call S (Unit {0})
  pub uid_copy : Text → Text → Call S (Unit {0})
  pub uid_store : Text → Text → Call S (Items (Unit {0}))
  pub expunge : Call S (Items ℕ)
  pub logout : Call S (Unit {0})

-- An outcome that does not touch the session.
abbrev pub pure {ℓ} : {S : Type ℓ} {A : Type 0} → Result A BackendError → Method S A
pure r s = (r, s)

unfoldable pub and_then {ℓ} :
    {S : Type ℓ} {A B : Type 0}
    → Result A BackendError × S
    → (A → Method S B)
    → Result B BackendError × S
and_then (ok a, s) k = k a s
and_then (err e, s) k = (err e, s)

-- A command whose error becomes a protocol error in a context.
abbrev pub call {ℓ} : {S : Type ℓ} {A : Type 0} → Text → Call S A → Method S A
call context f s = let (r, t) = f s in (map_err (λ e. protocol (context ++ e)) r, t)

-- The items of a stream up to the first error.
unfoldable pub collect : {A : Type 0} → Text → Items A → Result (List A) BackendError
collect context [] = ok []
collect context (err e ∷ items) = err (protocol (context ++ e))
collect context (ok a ∷ items) = elim (collect context items) [ ok l ↦ ok (a ∷ l) | err e ↦ err e ]

-- What is collected is every item, none of which is an error.
pub collect_okay :
    {A : Type 0} (context : Text) (items : Items A) (l : List A)
    → collect context items ≡ ok l
    → items ≡ map ok l
unfolding collect
collect_okay context [] l h = ground arith
collect_okay context (err e ∷ items) l h = absurd (ground arith)
collect_okay context (ok a ∷ items) l h = elim (Result-cases (collect context items)) [
  | inl (rest, e) ↦
      let below = collect_okay context items rest e in
      let whole : (a ∷ rest) ≡ l = ground arith in ap (λ x. ok a ∷ x) below ∙ ap (map ok) whole
  | inr (x, e) ↦ absurd (ground arith)
]

-- The steps of a connection: `login` gives the session or an error.
pub record Connection {ℓ} (S : Type ℓ) : Type ℓ where
  pub tcp : Fault
  pub server_name : Fault
  pub handshake : Fault
  pub login : Text → Text → Result S Text

abbrev pub in_context {ℓ} : {A : Type ℓ} → Text → Fault → A → Result A BackendError
in_context context fault a = map_err (λ e. transport (context ++ e)) (run fault a)

unfoldable pub connect {ℓ} :
    {S : Type ℓ} → Connection S → AccountConfig → Text → Result S BackendError
connect net config password = elim (in_context {0} (codes "tcp connect: ") net.tcp tt) [
  | err e ↦ err e
  | ok u ↦ elim (in_context {0} (codes "server name: ") net.server_name tt) [
    | err e ↦ err e
    | ok u ↦ elim (in_context {0} (codes "tls handshake: ") net.handshake tt) [
      | err e ↦ err e
      | ok u ↦ map_err auth (net.login config.username password)
    ]
  ]
]

-- A logout that fails is logged, and its error dropped.
abbrev pub logout {ℓ} : {S : Type ℓ} → Commands S → S → S
logout imap s = (imap.logout s).1
