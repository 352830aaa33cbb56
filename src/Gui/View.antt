-- ===== src/Gui/View.antt =====
-- `App::view` of thundercrab-gui/src/main.rs: the widgets of the window, without their sizes and
-- distances.
pub mod Offers
pub mod Secrecy
use thundercrab.Prelude.{
  Bool, true, false, Text, codes, Option, none, some, List, [], ◌∷◌, if◌then◌else◌,
}
use thundercrab.Prelude.Decimal.{show}
use thundercrab.Prelude.Strings.{aligned}
use thundercrab.Backend.{FolderSummary}
use thundercrab.Gui.{App, Message, host_changed, user_changed, password_changed, connect_pressed}

-- `Element`, with what the window can be told through it.
mutual
  pub data Element : Type 0 where
    text : Text → Element
    text_input :
        (placeholder value : Text) → (secure : Bool) → (on_input : Text → Message) → Element
    button : Text → (on_press_maybe : Option Message) → Element
    column row : Elements → Element
    scrollable container : Element → Element

  pub data Elements : Type 0 where
    end : Elements
    push : Element → Elements → Elements

abbrev pub elements : List Element → Elements
elements [] = end
elements (e ∷ es) = push e (elements es)

abbrev pub labelled : Text → Text → Text → Bool → (Text → Message) → Element
labelled label placeholder value secure on_input =
    row (elements (text label ∷ text_input placeholder value secure on_input ∷ []))

abbrev pub connect_button : Bool → Element
connect_button connecting =
    button (if connecting then codes "Connecting…" else codes "Connect")
      (if connecting then none else some connect_pressed)

abbrev pub folder_row : FolderSummary → Element
folder_row f = row (
    elements (
      text (aligned 4 (show f.unseen))
      ∷ text (codes "/")
      ∷ text (aligned 5 (show f.messages))
      ∷ text f.name
      ∷ []))

abbrev pub folder_rows : List FolderSummary → Elements
folder_rows [] = end
folder_rows (f ∷ fs) = push (folder_row f) (folder_rows fs)

abbrev pub folder_list : List FolderSummary → Element
folder_list [] = column (elements (text (codes "(no folders loaded yet)") ∷ []))
folder_list (f ∷ fs) = column (push (text (codes "Folders")) (folder_rows (f ∷ fs)))

abbrev pub header : Element
header = column (
    elements (
      text (codes "Thundercrab")
      ∷ text (codes "Local-first mail client. Rules transparent. No cloud.")
      ∷ []))

abbrev pub form : App → Element
form app = column (
    elements (
      labelled (codes "IMAP host") (codes "mail.example.com") app.host false host_changed
      ∷ labelled (codes "Username") (codes "you@example.com") app.user false user_changed
      ∷ labelled (codes "Password") (codes "…") app.password true password_changed
      ∷ row (elements (connect_button app.connecting ∷ text app.status ∷ []))
      ∷ []))

unfoldable pub view : App → Element
view app =
    container (column (elements (header ∷ form app ∷ scrollable (folder_list app.folders) ∷ [])))
