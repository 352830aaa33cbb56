-- ===== src/Imap/Move.antt =====
-- `move_message` and `set_flag` of thundercrab-imap/src/rust_imap.rs.
pub mod Safety
use thundercrab.Prelude.{ℕ, Bool, true, false, Text, codes, ◌++◌, Result, ok, err, if◌then◌else◌}
use thundercrab.Prelude.Decimal.{show}
use thundercrab.Backend.{Method}
use thundercrab.Imap.Session.{Commands, pure, and_then, call, collect}

module _ {ℓ} {S : Type ℓ} (imap : Commands S) where
  -- Without MOVE. The items of the two streams are read and not looked at.
  unfoldable pub copy_and_expunge : Text → ℕ → Method S (Unit {0})
  copy_and_expunge to_folder uid s =
      and_then (call (codes "uid_copy: ") (imap.uid_copy (show uid) to_folder) s) λ copied s1.
        and_then
          (call (codes "uid_store: ") (imap.uid_store (show uid) (codes "+FLAGS (\\Deleted)")) s1)
          λ updates s2. and_then (call (codes "expunge: ") imap.expunge s2) λ expunged. pure (ok tt)

  -- The move itself, in the selected folder: any failure of MOVE leads to the fallback.
  unfoldable pub move_selected : Text → ℕ → Method S (Unit {0})
  move_selected to_folder uid s =
      let (moved, s1) = imap.uid_mv (show uid) to_folder s in
      elim moved [ ok u ↦ (ok tt, s1) | err e ↦ copy_and_expunge to_folder uid s1 ]

  unfoldable pub move_message : Text → Text → ℕ → Method S (Unit {0})
  move_message from_folder to_folder uid s =
      and_then (call (codes "select " ++ (from_folder ++ codes ": ")) (imap.select from_folder) s)
        λ selected. move_selected to_folder uid

  abbrev pub flag_item : Text → Bool → Text
  flag_item flag set =
      (if set then codes "+FLAGS" else codes "-FLAGS") ++ (codes " (" ++ (flag ++ codes ")"))

  unfoldable pub set_flag : Text → ℕ → Text → Bool → Method S (Unit {0})
  set_flag folder uid flag set s =
      and_then (call (codes "select " ++ (folder ++ codes ": ")) (imap.select folder) s)
        λ selected s1.
          and_then (call (codes "uid_store: ") (imap.uid_store (show uid) (flag_item flag set)) s1)
            λ items s2. and_then (collect (codes "store item: ") items, s2) λ stored. pure (ok tt)
