-- ===== src/Cli/Encryption.antt =====
-- The encryption that `cmd_send` of thundercrab-cli/src/main.rs takes a word for.
use mathlib.Core.Path.{subst}
use thundercrab.Prelude.{ℕ, ◌≡◌, Text, codes, ok, arith, inl, inr, text_eq, text_eq_iff, Bool-cases}
use thundercrab.Smtp.{start_tls, implicit_tls, SmtpEncryption}
use thundercrab.Cli.{encryption_of}

-- The encryption that a word names.
abbrev pub IsEncryption : Text → SmtpEncryption → Type 0
IsEncryption word start_tls = word ≡ codes "starttls"
IsEncryption word implicit_tls = word ≡ codes "implicit"

-- How a message is secured as the word asks; STARTTLS is on port 587.
abbrev pub IsSecured : Text → SmtpEncryption → ℕ → Type 0
IsSecured word start_tls port = (word ≡ codes "starttls") × (port ≡ 587)
IsSecured word implicit_tls port = word ≡ codes "implicit"

pub IsSecured-on_587 :
    (word : Text) (e : SmtpEncryption) (port : ℕ)
    → IsEncryption word e
    → port ≡ 587
    → IsSecured word e port
IsSecured-on_587 word start_tls port h p = (h, p)
IsSecured-on_587 word implicit_tls port h p = h

pub encryption_of-IsEncryption :
    (debug : Text → Text) (word : Text) (e : SmtpEncryption)
    → encryption_of debug word ≡ ok e
    → IsEncryption word e
encryption_of-IsEncryption debug word e h = elim (Bool-cases (text_eq word (codes "starttls"))) [
  | inl t ↦
      let k : ok start_tls ≡ ok e = rw t at h in
      let same : start_tls ≡ e = ground arith in
      subst (IsEncryption word) same ((text_eq_iff word (codes "starttls")).0 t)
  | inr f ↦ elim (Bool-cases (text_eq word (codes "implicit"))) [
    | inl t ↦
        let k : ok implicit_tls ≡ ok e = rw (f, t) at h in
        let same : implicit_tls ≡ e = ground arith in
        subst (IsEncryption word) same ((text_eq_iff word (codes "implicit")).0 t)
    | inr g ↦ absurd (ground arith)
  ]
]
