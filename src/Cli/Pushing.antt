-- ===== src/Cli/Pushing.antt =====
-- `cmd_push_sieve` of thundercrab-cli/src/main.rs: a script that is reported as pushed.
use thundercrab.Prelude.{◌≡◌, Text, codes, ◌++◌, ◌∷◌, ok}
use thundercrab.Backend.{AccountConfig}
use thundercrab.Sieve.Session.{plain, crlf}
use thundercrab.Sieve.Secrecy.{behind}
use thundercrab.Sieve.Success.{AllOkay, tls_script}
use thundercrab.Cli.{World, Report}

module _ {S M R : Type 0} (world : World S M R) (name path : Text) where
  -- The bytes that were sent, and the replies, for the script that the file holds.
  abbrev pub IsPushed : AccountConfig → Text → Report S M → Type 0
  IsPushed cfg password r =
      (script : Text) × (world.read_file path ≡ ok script)
      × (r.sent ≡ plain (codes "STARTTLS" ++ crlf) ∷ tls_script cfg password name script)
      × AllOkay world.reader 2 world.network.clear_input
      × ((t : R) × (world.network.handshake (behind world.reader 2 world.network.clear_input)
            ≡ ok t)
          × AllOkay world.reader 4 t)
