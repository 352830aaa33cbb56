-- ===== src/Imap/Folders/Names.antt =====
-- `list_folders` of rust_imap.rs: the folders that it returns.
use thundercrab.Prelude.{
  ◌≡◌, refl, sym, ap, ◌∙◌, Text, codes, ◌++◌, List, [], ◌∷◌, map, Result, ok, err, map_err, arith,
}
use thundercrab.Backend.{Method, BackendError, FolderSummary}
use thundercrab.Imap.Session.{Commands, and_then, call, collect, collect_okay}
use thundercrab.Imap.Folders.{summary, statuses, list_folders}

abbrev pub names_of : List FolderSummary → List Text
names_of out = map (λ f. f.name) out

-- What a method returns comes from the command that it begins with.
passed {ℓ} :
    {S : Type ℓ} {A B : Type 0} (x : Result A BackendError × S) (k : A → Method S B) (b : B)
    → (and_then x k).0 ≡ ok b
    → (a : A) × (x.0 ≡ ok a) × ((k a x.1).0 ≡ ok b)
unfolding and_then
passed (ok a, s) k b h = (a, refl, h)
passed (err e, s) k b h = absurd (ground arith)

module _ {ℓ} {S : Type ℓ} (imap : Commands S) where
  statuses-names :
      (names : List Text) (s : S) (out : List FolderSummary)
      → (statuses imap names s).0 ≡ ok out
      → names_of out ≡ names
  unfolding statuses
  statuses-names [] s out h = let e : [] ≡ out = ground arith in ap names_of (sym e)
  statuses-names (name ∷ names) s out h =
      let asked =
        call (codes "status " ++ (name ++ codes ": "))
          (imap.status name (codes "(MESSAGES UNSEEN)")) s in
      let (status, _, k) = passed asked _ out h in
      let (rest, e, q) = passed (statuses imap names asked.1) _ out k in
      let whole : (summary name status ∷ rest) ≡ out = ground arith in
      ap names_of (sym whole) ∙ ap (λ l. name ∷ l) (statuses-names names asked.1 rest e)

  okay_of_map_err :
      {A : Type 0} (f : Text → BackendError) (r : Result A Text) (a : A)
      → map_err f r ≡ ok a
      → r ≡ ok a
  okay_of_map_err f (ok b) a h = let e : b ≡ a = ground arith in ap ok e
  okay_of_map_err f (err e) a h = absurd (ground arith)

  -- Success means that LIST has answered, with no item that is an error, and that the result has one
  -- entry for each name of the answer, in its order.
  pub list_folders-names :
      (s : S) (out : List FolderSummary)
      → (list_folders imap s).0 ≡ ok out
      → (imap.list [] (codes "*") s).0 ≡ ok (map ok (names_of out))
  unfolding list_folders
  list_folders-names s out h =
      let asked = call (codes "list: ") (imap.list [] (codes "*")) s in
      let (items, e, k) = passed asked _ out h in
      let (names, c, q) = passed (collect (codes "list item: ") items, asked.1) _ out k in
      okay_of_map_err _ (imap.list [] (codes "*") s).0 items e
      ∙ ap ok (
          collect_okay (codes "list item: ") items names c
          ∙ ap (map ok) (sym (statuses-names names asked.1 out q)))
