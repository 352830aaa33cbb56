-- ===== src/Imap/Tests.antt =====
-- Runs of the IMAP backend on a small server, and its theorems at concrete inputs.
pub mod Server
use thundercrab.Prelude.{
  ◌≡◌, ◌≢◌, refl, ◌+◌, ◌<◌, ◌≤◌, ◌^◌, ◌↔◌, ◌⊎◌, Text, codes, text_eq, ascii_lower, none, some, List,
  [], ◌∷◌, map, ok, All, arith,
}
use thundercrab.Prelude.Decimal.{decimal}
use thundercrab.Prelude.Strings.{is_whitespace, trim_start_by, trim_end_by, split_once, Bytes}
use thundercrab.Backend.{FolderSummary}
use thundercrab.Imap.Session.{and_then, collect}
use thundercrab.Imap.Headers.{split, push_if_relevant, take_line, parse_lines, parse_headers}
use thundercrab.Imap.Headers.Other.{IsOther, parse_headers-IsOther}
use thundercrab.Imap.Headers.Unfold.{
  Field, write_fields, read_field, others, IsField, parse_headers-write_fields,
}
use thundercrab.Imap.Folders.{statuses, list_folders}
use thundercrab.Imap.Folders.Names.{names_of, list_folders-names}
use thundercrab.Imap.Fetch.{fetch_range}
use thundercrab.Imap.Fetch.Newest.{Selects, fetch_range-newest}
use thundercrab.Imap.Move.{copy_and_expunge, move_selected, move_message}
use thundercrab.Imap.Move.Safety.{Laws, move_message-IsSafe}
use thundercrab.Imap.Tests.Server.{Held, server, Has, Selected, server_laws, at_inbox}

runs : Unit {0}
unfolding decimal is_whitespace trim_start_by trim_end_by split_once and_then collect split
    push_if_relevant take_line parse_lines parse_headers statuses list_folders fetch_range
    copy_and_expunge move_selected move_message text_eq ascii_lower
runs = tt

abbrev same : Bytes → Text
same raw = raw

unfolds_continuation_lines :
    parse_headers same (codes "X-Long: line one\r\n  continued\r\n\tand again\r\n\r\n")
    ≡ (codes "x-long", codes "line one continued and again") ∷ []
unfolding runs
unfolds_continuation_lines = refl

excludes_from_and_subject :
    parse_headers same (codes "From: x@y.z\r\nSubject: hi\r\nLIST-ID: <l>\r\n")
    ≡ (codes "list-id", codes "<l>") ∷ []
unfolding runs
excludes_from_and_subject = refl

abbrev field : Field
field = record { name = codes "To"; first = codes "a,"; more = codes "b" ∷ [] }

field-IsField : IsField field
unfolding runs
field-IsField = (
  (
    ((λ e. omega (arith, e)), (λ e. omega (arith, e))),
    (((λ e. omega (arith, e)), (λ e. omega (arith, e))), tt),
  ),
  ((λ e. omega (arith, e)), ((λ e. omega (arith, e)), tt)),
  refl,
  refl,
  refl,
  (
    ((λ e. omega (arith, e)), (λ e. omega (arith, e))),
    (((λ e. omega (arith, e)), (λ e. omega (arith, e))), tt),
  ),
  refl,
  (((((λ e. omega (arith, e)), (λ e. omega (arith, e))), tt), refl), tt),
)

parse_headers-write_fields_example :
    parse_headers same (write_fields (field ∷ []) (codes "body"))
    ≡ others (map read_field (field ∷ []))
parse_headers-write_fields_example =
    parse_headers-write_fields same (write_fields (field ∷ []) (codes "body")) (field ∷ [])
      (codes "body") (field-IsField, tt) refl

fetch_range-newest_example :
    Selects (fetch_range (some 10) 25) 25 16 ↔ ((1 ≤ 16) × (16 ≤ 25) × (25 < 16 + 10))
fetch_range-newest_example = fetch_range-newest 10 25 16 (omega arith) (omega arith)

abbrev listed : List FolderSummary
listed =
    record { name = codes "INBOX"; special_use = none; messages = 2; unseen = 1 }
    ∷ record { name = codes "Archive"; special_use = none; messages = 2; unseen = 1 }
    ∷ []

move_message-IsSafe_example :
    Has (codes "Archive") (move_message server (codes "INBOX") (codes "Archive") 7 at_inbox).1
    ⊎ (((move_message server (codes "INBOX") (codes "Archive") 7 at_inbox).0 ≢ ok tt)
        × Has (codes "INBOX") (move_message server (codes "INBOX") (codes "Archive") 7 at_inbox).1)
unfolding runs
move_message-IsSafe_example =
    move_message-IsSafe server 7 Has Selected (server_laws 7) (codes "INBOX") (codes "Archive")
      at_inbox (λ e. ground arith) refl
