-- ===== src/Gui.antt =====
-- thundercrab-gui/src/main.rs: the state of the window, its messages, and the task that connects.
pub mod Flight
pub mod View
mod Tests
use thundercrab.Prelude.{
  ℕ, Bool, true, false, Text, codes, ◌++◌, Option, none, some, List, [], ◌∷◌, length, Result, ok,
  err, map_err, if◌then◌else◌,
}
use thundercrab.Prelude.Decimal.{show}
use thundercrab.Backend.{Backend, AccountConfig, plausiden, FolderSummary, show_error}
use thundercrab.Imap.Session.{Connection, connect}

pub record App : Type 0 where
  pub host : Text
  pub user : Text
  pub password : Text
  pub folders : List FolderSummary
  pub status : Text
  pub connecting : Bool

-- `App::default`
abbrev pub new : App
new = record { host = []; user = []; password = []; folders = []; status = []; connecting = false }

pub data Message : Type 0 where
  host_changed user_changed password_changed : Text → Message
  connect_pressed : Message
  connected : Result (List FolderSummary) Text → Message

-- The arguments of `connect_and_list`, which a task runs.
pub record Job : Type 0 where
  pub config : AccountConfig
  pub password : Text

-- The next state, and the task that is started.
unfoldable pub update : App → Message → App × Option Job
update app (host_changed s) = (record app { host = s }, none)
update app (user_changed s) = (record app { user = s }, none)
update app (password_changed s) = (record app { password = s }, none)
update app connect_pressed = if app.connecting then (app, none) else (
  record app { connecting = true; status = codes "Connecting…"; password = [] },
  some (record { config = plausiden app.host app.user; password = app.password }),
)
update app (connected (ok folders)) = (
  record app {
    connecting = false;
    folders = folders;
    status = codes "Connected. " ++ (show (length folders) ++ codes " folders.");
  },
  none,
)
update app (connected (err e)) =
    (record app { connecting = false; folders = []; status = codes "Failed: " ++ e }, none)

-- What the task does; `logout` gives the session up.
unfoldable pub connect_and_list {ℓ} :
    {S : Type ℓ} → Connection S → Backend S → Job → Result (List FolderSummary) Text
connect_and_list net backend job = elim (connect net job.config job.password) [
  | err e ↦ err (codes "connect: " ++ show_error e)
  | ok s ↦ map_err (λ e. codes "list_folders: " ++ show_error e) (backend.list_folders s).0
]
