-- ===== src/Backend.antt =====
-- thundercrab-imap/src/lib.rs: the settings of an account, the errors and the records of the mail
-- backends, and the trait that these implement.
use thundercrab.Prelude.{Bool, Result, ℕ, Text, codes, ◌++◌, Option, List}

pub data BackendError : Type 0 where
  transport auth protocol not_implemented : Text → BackendError

-- `Display`
unfoldable pub show_error : BackendError → Text
show_error (transport s) = codes "transport: " ++ s
show_error (auth s) = codes "auth: " ++ s
show_error (protocol s) = codes "protocol: " ++ s
show_error (not_implemented s) = codes "not implemented: " ++ s

pub record AccountConfig : Type 0 where
  pub imap_host : Text
  pub imap_port : ℕ
  pub smtp_host : Text
  pub smtp_port : ℕ
  pub sieve_port : ℕ
  pub username : Text

abbrev pub plausiden : Text → Text → AccountConfig
plausiden host username = record {
  imap_host = host;
  imap_port = 993;
  smtp_host = host;
  smtp_port = 587;
  sieve_port = 4190;
  username = username;
}

pub record FolderSummary : Type 0 where
  pub name : Text
  pub special_use : Option Text
  pub messages : ℕ
  pub unseen : ℕ

pub record MessageHeaders : Type 0 where
  pub uid : ℕ
  pub folder : Text
  pub from : Text
  pub subject : Text
  pub other_headers : List (Text × Text)

-- A method of a backend, on the state of its session.
abbrev pub Method {ℓ} : Type ℓ → Type 0 → Type ℓ
Method S A = S → Result A BackendError × S

-- The trait `Backend`.
pub record Backend {ℓ} (S : Type ℓ) : Type ℓ where
  pub list_folders : Method S (List FolderSummary)
  pub fetch_headers : (folder : Text) → (limit : Option ℕ) → Method S (List MessageHeaders)
  pub move_message : (from_folder to_folder : Text) → (uid : ℕ) → Method S (Unit {0})
  pub set_flag : (folder : Text) → (uid : ℕ) → (flag : Text) → (set : Bool) → Method S (Unit {0})
  pub put_sieve : (script : Text) → Method S (Unit {0})
