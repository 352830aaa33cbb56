-- ===== src/Cli/ReadOnly.antt =====
-- The commands of thundercrab-cli/src/main.rs leave the mailboxes as they are.
use thundercrab.Prelude.{Text, codes, some, List, ok, err, Result-cases, inl, inr, ℕ, Result}
use thundercrab.Backend.{AccountConfig, BackendError}
use thundercrab.Imap.Session.{connect}
use thundercrab.Imap.Client.{rust_imap}
use thundercrab.Imap.ReadOnly.{Keeps, Kept, connect_keeps, list_folders_keeps, fetch_headers_keeps}
use thundercrab.Cli.{
  Command, list, fetch, push_sieve, send, World, load_config, required, cmd_list, cmd_fetch,
  cmd_push_sieve, cmd_send, prepare, pushed, delivered, dispatch, run,
}

module _ {S M R : Type 0} (world : World S M R) (P : S → Type 0)
    (keeps : Keeps world.connection world.imap P) where
  cmd_list_keeps :
      (cfg : AccountConfig) (password : Text) → Kept P (cmd_list world cfg password).session
  unfolding cmd_list
  cmd_list_keeps cfg password = elim (Result-cases (connect world.connection cfg password)) [
    | inr (x, e) ↦ rw (e, cmd_list) tt
    | inl (s, e) ↦
        let k =
          list_folders_keeps P world.connection world.imap keeps s
            (connect_keeps P world.connection world.imap keeps cfg password s e) in
        elim (Result-cases ((rust_imap world.lossy world.imap).list_folders s).0) [
          | inr (x, q) ↦ rw (e, q, cmd_list) k
          | inl (folders, q) ↦ rw (e, q, cmd_list) (keeps.logout _ k)
        ]
  ]

  cmd_fetch_keeps :
      (cfg : AccountConfig) (password folder : Text) (limit : ℕ)
      → Kept P (cmd_fetch world cfg password folder limit).session
  unfolding cmd_fetch
  cmd_fetch_keeps cfg password folder limit =
      elim (Result-cases (connect world.connection cfg password)) [
        | inr (x, e) ↦ rw (e, cmd_fetch) tt
        | inl (s, e) ↦
            let k =
              fetch_headers_keeps P world.connection world.imap keeps world.lossy folder
                (some limit) s
                (connect_keeps P world.connection world.imap keeps cfg password s e) in
            elim (Result-cases
              ((rust_imap world.lossy world.imap).fetch_headers folder (some limit) s).0) [
                | inr (x, q) ↦ rw (e, q, cmd_fetch) k
                | inl (headers, q) ↦ rw (e, q, cmd_fetch) (keeps.logout _ k)
              ]
      ]

  pushed_keeps :
      (name script : Text) (r : Result (Unit {0}) BackendError)
      → Kept P (pushed world name script r).session
  pushed_keeps name script (ok u) = tt
  pushed_keeps name script (err e) = tt

  delivered_keeps : (r : Result (Unit {0}) BackendError) → Kept P (delivered world r).session
  delivered_keeps (ok u) = tt
  delivered_keeps (err e) = tt

  cmd_push_sieve_keeps :
      (cfg : AccountConfig) (password name path : Text)
      → Kept P (cmd_push_sieve world cfg password name path).session
  unfolding cmd_push_sieve
  cmd_push_sieve_keeps cfg password name path = elim (Result-cases (world.read_file path)) [
    | inr (x, e) ↦ rw (e, cmd_push_sieve) tt
    | inl (script, e) ↦ rw (e, cmd_push_sieve) (pushed_keeps name script _)
  ]

  cmd_send_keeps :
      (cfg : AccountConfig) (password : Text) (to cc_list : List Text)
      (subject body encryption : Text)
      → Kept P (cmd_send world cfg password to cc_list subject body encryption).session
  unfolding cmd_send
  cmd_send_keeps cfg password to cc_list subject body encryption =
      elim (Result-cases (prepare world cfg to cc_list subject body encryption)) [
        | inr (x, e) ↦ rw (e, cmd_send) tt
        | inl (m, e) ↦ rw (e, cmd_send) (delivered_keeps _)
      ]

  dispatch_keeps :
      (cfg : AccountConfig) (password : Text) (command : Command)
      → Kept P (dispatch world cfg password command).session
  dispatch_keeps cfg password list = cmd_list_keeps cfg password
  dispatch_keeps cfg password (fetch folder limit) = cmd_fetch_keeps cfg password folder limit
  dispatch_keeps cfg password (push_sieve name path) = cmd_push_sieve_keeps cfg password name path
  dispatch_keeps cfg password (send to cc_list subject body encryption) =
      cmd_send_keeps cfg password to cc_list subject body encryption

  -- Whatever the command and however it ends, the IMAP session that it leaves has the mailboxes as
  -- they were at login, in all that LIST, STATUS, EXAMINE, LOGOUT and a FETCH of BODY.PEEK keep: no
  -- message is moved, deleted or marked as read.
  pub run-Kept : (command : Command) → Kept P (run world command).session
  unfolding run
  run-Kept command = elim (Result-cases (load_config world)) [
    | inr (x, e) ↦ rw (e, run) tt
    | inl (cfg, e) ↦
        elim (Result-cases
          (required world (codes "IMAP_PASSWORD") (codes "IMAP_PASSWORD env var must be set"))) [
            | inr (x, p) ↦ rw (e, p, run) tt
            | inl (password, p) ↦ rw (e, p, run) (dispatch_keeps cfg password command)
          ]
  ]
