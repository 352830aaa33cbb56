-- ===== src/Cli/Lines.antt =====
-- What `cmd_list` and `cmd_fetch` of thundercrab-cli/src/main.rs print.
use thundercrab.Prelude.{◌||◌, Bool, Text, codes, text_eq, ◌++◌, List, [], ◌∷◌, if◌then◌else◌}
use thundercrab.Prelude.Strings.{aligned}
use thundercrab.Prelude.Decimal.{show}
use thundercrab.Backend.{FolderSummary, MessageHeaders}

-- `{:>6}`
abbrev pub pad : Text → Text
pad s = aligned 6 s

abbrev pub folder_line : FolderSummary → Text
folder_line f =
    pad (show f.unseen) ++ (codes "  " ++ (pad (show f.messages) ++ (codes "  " ++ f.name)))

abbrev pub is_shown : Text → Bool
is_shown name =
    text_eq name (codes "list-id")
    || text_eq name (codes "list-unsubscribe")
    || text_eq name (codes "x-priority")

abbrev pub shown_headers : List (Text × Text) → List Text
shown_headers [] = []
shown_headers ((name, value) ∷ hs) =
    let rest = shown_headers hs in
    if is_shown name then (codes "    " ++ (name ++ (codes ": " ++ value))) ∷ rest else rest

abbrev pub message_lines : List MessageHeaders → List Text
message_lines [] = []
message_lines (h ∷ hs) =
    (codes "uid=" ++ (show h.uid ++ (codes "  from=" ++ h.from)))
    ∷ (codes "    subject: " ++ h.subject)
    ∷ (shown_headers h.other_headers ++ message_lines hs)

abbrev pub fetch_lines : Text → List MessageHeaders → List Text
fetch_lines folder [] = (codes "(no messages in " ++ (folder ++ codes ")")) ∷ []
fetch_lines folder (h ∷ hs) = message_lines (h ∷ hs)
