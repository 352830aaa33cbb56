-- ===== src/Cli/Inert.antt =====
-- `run` of thundercrab-cli/src/main.rs without credentials.
use thundercrab.Prelude.{
  ◌≡◌, refl, Text, codes, ◌++◌, none, [], err, arith, ◌⊎◌, inl, inr, Result-cases,
}
use thundercrab.Cli.{Command, World, Report, load_config, run}

module _ {S M : Type 0} where
  -- Nothing is printed, no session is opened, nothing is sent, and the run fails.
  abbrev pub IsInert : Report S M → Type 0
  IsInert r =
      (r.printed ≡ [])
      × (r.session ≡ none)
      × (r.sent ≡ [])
      × (r.submitted ≡ [])
      × ((e : Text) × (r.result ≡ err e))

module _ {S M R : Type 0} where
  abbrev pub IsUnset : World S M R → Text → Type 0
  IsUnset world name = (e : Text) × (world.env name ≡ err e)

  load_config_unset :
      (world : World S M R)
      → IsUnset world (codes "IMAP_HOST") ⊎ IsUnset world (codes "IMAP_USER")
      → (e : Text) × (load_config world ≡ err e)
  unfolding load_config
  load_config_unset world (inl (x, h)) =
      (codes "IMAP_HOST not set" ++ (codes ": " ++ x), rw (h, load_config) refl)
  load_config_unset world (inr (x, h)) = elim (Result-cases (world.env (codes "IMAP_HOST"))) [
    | inl (host, e) ↦ (codes "IMAP_USER not set" ++ (codes ": " ++ x), rw (e, h, load_config) refl)
    | inr (y, e) ↦ (codes "IMAP_HOST not set" ++ (codes ": " ++ y), rw (e, load_config) refl)
  ]

  -- If the host, the user or the password is not set, every command fails before it does anything: it
  -- prints nothing, opens no session, and sends nothing to any of the three servers.
  pub run-IsInert :
      (world : World S M R) (command : Command)
      → IsUnset world (codes "IMAP_HOST")
        ⊎ (IsUnset world (codes "IMAP_USER") ⊎ IsUnset world (codes "IMAP_PASSWORD"))
      → IsInert (run world command)
  unfolding run
  run-IsInert world command h = elim (Result-cases (load_config world)) [
    | inr (x, e) ↦ rw (e, run) (refl, refl, refl, refl, (x, refl))
    | inl (cfg, e) ↦ elim h [
      | inl a ↦ let (x, p) = load_config_unset world (inl a) in absurd (ground arith)
      | inr (inl a) ↦ let (x, p) = load_config_unset world (inr a) in absurd (ground arith)
      | inr (inr (x, p)) ↦ rw (e, p, run) (refl, refl, refl, refl, (_, refl))
    ]
  ]
