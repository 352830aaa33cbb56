-- ===== src/Imap/Folders.antt =====
-- `list_folders` and `put_sieve` of thundercrab-imap/src/rust_imap.rs.
pub mod Names
use thundercrab.Prelude.{
  ◌≡◌, refl, ap, ◌∙◌, Text, codes, ◌++◌, Option, none, some, List, [], ◌∷◌, map, Result, ok, err,
  arith, Result-cases, inl, inr,
}
use thundercrab.Backend.{Method, BackendError, not_implemented, FolderSummary}
use thundercrab.Imap.Session.{Commands, Mailbox, Items, pure, and_then, call, collect}

abbrev pub summary : Text → Mailbox → FolderSummary
summary name status = record {
  name = name;
  special_use = none;
  messages = status.exists;
  unseen = elim status.unseen [ none ↦ 0 | some n ↦ n ];
}

module _ {ℓ} {S : Type ℓ} (imap : Commands S) where
  -- One STATUS for each name.
  unfoldable pub statuses : List Text → Method S (List FolderSummary)
  statuses [] s = (ok [], s)
  statuses (name ∷ names) s =
      and_then
        (call (codes "status " ++ (name ++ codes ": "))
          (imap.status name (codes "(MESSAGES UNSEEN)")) s)
        λ status t. and_then (statuses names t) λ rest. pure (ok (summary name status ∷ rest))

  unfoldable pub list_folders : Method S (List FolderSummary)
  list_folders s =
      and_then (call (codes "list: ") (imap.list [] (codes "*")) s)
        λ items t. and_then (collect (codes "list item: ") items, t) statuses

abbrev pub put_sieve {ℓ} : {S : Type ℓ} → Text → Method S (Unit {0})
put_sieve script = pure (
    err (
      not_implemented
        (codes "put_sieve: call thundercrab_imap::managesieve::put_active_script directly")))
