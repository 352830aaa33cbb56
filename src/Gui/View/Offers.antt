-- ===== src/Gui/View/Offers.antt =====
-- What the user can send through the window.
use thundercrab.Prelude.{◌≡◌, refl, Text, none, some, List, [], ◌∷◌, ◌++◌, inl, inr}
use thundercrab.Backend.{FolderSummary}
use thundercrab.Gui.{
  App, Message, host_changed, user_changed, password_changed, connect_pressed, Job,
}
use thundercrab.Gui.Flight.{Reach, Reach-InFlight}
use thundercrab.Gui.View.{
  Element, text, text_input, button, column, row, scrollable, container, Elements, end, push,
  folder_rows, folder_list, view,
}

-- A text input sends every text, as a message, and a button the one it has.
pub data Sender : Type 0 where
  typing : (Text → Message) → Sender
  pressing : Message → Sender

-- The senders of an element, from left to right and from top to bottom.
unfoldable mutual
  pub senders : Element → List Sender
  senders (text s) = []
  senders (text_input placeholder value secure on_input) = typing on_input ∷ []
  senders (button s none) = []
  senders (button s (some m)) = pressing m ∷ []
  senders (column es) = all_senders es
  senders (row es) = all_senders es
  senders (scrollable e) = senders e
  senders (container e) = senders e

  pub all_senders : Elements → List Sender
  all_senders end = []
  all_senders (push e es) = senders e ++ all_senders es

-- The button is there for a window without a task in flight.
abbrev pub press : List Job → List Sender
press [] = pressing connect_pressed ∷ []
press (job ∷ jobs) = []

folder_rows-senders : (fs : List FolderSummary) → all_senders (folder_rows fs) ≡ []
unfolding senders
folder_rows-senders [] = refl
folder_rows-senders (f ∷ fs) = folder_rows-senders fs

folder_list-senders : (fs : List FolderSummary) → senders (folder_list fs) ≡ []
unfolding senders
folder_list-senders [] = refl
folder_list-senders (f ∷ fs) = folder_rows-senders (f ∷ fs)

-- However the window is used, the user can always type a host, a user name and a password, can press
-- Connect exactly while no connection is in flight, and can send nothing else.
pub view-senders :
    (app : App) (jobs : List Job)
    → Reach app jobs
    → senders (view app)
      ≡ typing host_changed ∷ typing user_changed ∷ typing password_changed ∷ press jobs
unfolding view senders
view-senders app jobs h = elim (Reach-InFlight app jobs h) [
  | inl (idle, e) ↦ rw (e, idle, folder_list-senders app.folders) refl
  | inr (busy, (job, e)) ↦ rw (e, busy, folder_list-senders app.folders) refl
]
