-- ===== src/Sieve/Secrecy.antt =====
-- `put_active_script` of managesieve.rs: the connection before and after the handshake.
use thundercrab.Prelude.{ℕ, zero, suc, ◌≡◌, refl, Text, codes, ◌++◌, Result, ok, err, All}
use thundercrab.Prelude.Sql.{Fault}
use thundercrab.Backend.{BackendError, AccountConfig}
use thundercrab.Sieve.Reader.{Reader}
use thundercrab.Sieve.Response.{Reply, read_response}
use thundercrab.Sieve.Session.{
  Network, Sent, plain, tls, Upload, need, step, write, answered, crlf, secured, over_tls,
  put_active_script,
}

module _ (P : Sent → Type 0) where
  All-need :
      (r : Result (Unit {0}) BackendError) (k : Upload)
      → (r ≡ ok tt → All P k.0)
      → All P (need r k).0
  unfolding need
  All-need (ok tt) k h = h refl
  All-need (err e) k h = tt

  All-write :
      (sent : Sent) (fault : Fault) (context : Text) (k : Upload)
      → P sent
      → All P k.0
      → All P (write sent fault context k).0
  unfolding write
  All-write sent fault context k p h = (p, All-need (step fault context) k (λ e. h))

  All-answered :
      {R : Type 0} (reader : Reader R)
      (f : Result Reply BackendError → Result (Unit {0}) BackendError) (s : R) (k : R → Upload)
      → All P (k (read_response reader s).1).0
      → All P (answered reader f s k).0
  unfolding answered
  All-answered reader f s k h =
      let t = (read_response reader s).1 in All-need (f (read_response reader s).0) (k t) (λ e. h)

  All-secured :
      {R : Type 0} (r : Result R Text) (k : R → Upload)
      → ((t : R) → r ≡ ok t → All P (k t).0)
      → All P (secured r k).0
  unfolding secured
  All-secured (ok t) k h = h t refl
  All-secured (err e) k h = tt

-- The reader behind `n` responses.
abbrev pub behind : {R : Type 0} → Reader R → ℕ → R → R
behind reader zero s = s
behind reader (suc n) s = behind reader n (read_response reader s).1

-- In the clear goes nothing but the STARTTLS command, and nothing goes over TLS unless the handshake
-- behind the first two responses in the clear has succeeded.
abbrev pub IsPrivate : {R : Type 0} → Reader R → Network R → Sent → Type 0
IsPrivate reader net (plain text) = text ≡ codes "STARTTLS" ++ crlf
IsPrivate {R} reader net (tls text) =
    (t : R) × (net.handshake (behind reader 2 net.clear_input) ≡ ok t)

over_tls-IsPrivate :
    {R : Type 0} (reader : Reader R) (net : Network R) (s : R) (cfg : AccountConfig)
    (password script_name script : Text)
    → net.handshake (behind reader 2 net.clear_input) ≡ ok s
    → All (IsPrivate reader net) (over_tls reader net s cfg password script_name script).0
unfolding over_tls
over_tls-IsPrivate {R} reader net s cfg password script_name script e =
    let P = IsPrivate reader net in
    let h : (t : R) × (net.handshake (behind reader 2 net.clear_input) ≡ ok t) = (s, e) in
    All-answered P reader _ _ _ (
      All-write P _ _ _ _ h (
        All-write P _ _ _ _ h (
          All-answered P reader _ _ _ (
            All-write P _ _ _ _ h (
              All-write P _ _ _ _ h (
                All-write P _ _ _ _ h (
                  All-answered P reader _ _ _ (
                    All-write P _ _ _ _ h
                      (All-write P _ _ _ _ h (All-answered P reader _ _ _ (h, tt)))))))))))

-- Whatever the network does, `put_active_script` hands only the STARTTLS command to the unencrypted
-- connection; the user name, the password and the script go over TLS after a successful handshake.
pub put_active_script-IsPrivate :
    {R : Type 0} (reader : Reader R) (net : Network R) (cfg : AccountConfig)
    (password script_name script : Text)
    → All (IsPrivate reader net) (put_active_script reader net cfg password script_name script).0
unfolding put_active_script
put_active_script-IsPrivate reader net cfg password script_name script =
    let P = IsPrivate reader net in
    All-need P _ _ λ connected. All-answered P reader _ _ _ (
      All-write P _ _ _ _ refl (
        All-answered P reader _ _ _ (
          All-need P _ _ λ named.
            All-secured P _ _
              λ s h. over_tls-IsPrivate reader net s cfg password script_name script h)))
