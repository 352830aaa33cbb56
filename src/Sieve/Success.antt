-- ===== src/Sieve/Success.antt =====
-- `put_active_script` of managesieve.rs: a successful upload.
use thundercrab.Prelude.{ℕ, zero, suc, ◌≡◌, Text, codes, List, [], ◌∷◌, ◌++◌, ok}
use thundercrab.Backend.{AccountConfig}
use thundercrab.Sieve.Reader.{Reader}
use thundercrab.Sieve.Response.{okay, read_response}
use thundercrab.Sieve.Session.{Sent, tls, Upload, crlf, authenticate, put_script, set_active}

-- The first responses that can be read are OK.
abbrev pub AllOkay : {R : Type 0} → Reader R → ℕ → R → Type 0
AllOkay reader zero s = Unit
AllOkay reader (suc n) s = let (r, t) = read_response reader s in (r ≡ ok okay) × AllOkay reader n t

-- What follows from the success of an upload.
abbrev Yields : Type 0 → Upload → Type 0
Yields P u = u.1 ≡ ok tt → P

-- What an upload sends if it succeeds.
abbrev Sends : List Sent → Upload → Type 0
Sends sent u = u.1 ≡ ok tt → u.0 ≡ sent

-- What is sent over TLS in a successful upload.
abbrev pub tls_script : AccountConfig → Text → Text → Text → List Sent
tls_script cfg password script_name script =
    tls (authenticate cfg.username password)
    ∷ tls crlf
    ∷ tls (put_script script_name script)
    ∷ tls script
    ∷ tls crlf
    ∷ tls (set_active script_name)
    ∷ tls crlf
    ∷ tls (codes "LOGOUT" ++ crlf)
    ∷ []
