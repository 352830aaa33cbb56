-- ===== src/Sieve/Session.antt =====
-- thundercrab-imap/src/managesieve.rs: `put_active_script`, as what is handed to the connection and
-- how the upload ends. Texts are their UTF-8 bytes. The outcomes of the network, and the readers that
-- its responses come from, are given.
use thundercrab.Prelude.{Text, codes, List, [], ◌∷◌, ◌++◌, length, Result, ok, err, map_err}
use thundercrab.Prelude.Decimal.{show}
use thundercrab.Prelude.Sql.{Fault, run}
use thundercrab.Backend.{BackendError, transport, auth, protocol, AccountConfig}
use thundercrab.Sieve.Base64.{base64_encode}
use thundercrab.Sieve.Quoted.{escape_quoted}
use thundercrab.Sieve.Reader.{Reader}
use thundercrab.Sieve.Response.{Reply, okay, no, bye, read_response}

-- Whether each step on the network fails, and the reader in the clear. The TLS connector is handed the
-- stream from which the server's answers in the clear were read: what it makes of that is given by the
-- reader that they leave, and is the reader over TLS or the connector's error.
pub record Network (R : Type 0) : Type 0 where
  pub connect : Fault
  pub clear_input : R
  pub starttls_write : Fault
  pub server_name : Fault
  pub handshake : R → Result R Text
  pub auth_write : Fault
  pub auth_trailer : Fault
  pub put_write : Fault
  pub put_body : Fault
  pub put_trailer : Fault
  pub active_write : Fault
  pub active_trailer : Fault

pub data Sent : Type 0 where
  plain tls : Text → Sent

abbrev pub Upload : Type 0
Upload = List Sent × Result (Unit {0}) BackendError

-- `?` on a result: an error ends the upload.
unfoldable pub need : Result (Unit {0}) BackendError → Upload → Upload
need (err e) k = ([], err e)
need (ok u) k = k

abbrev pub step : Fault → Text → Result (Unit {0}) BackendError
step fault context = map_err (λ e. transport (context ++ e)) (run fault tt)

-- Bytes are handed to the stream, whether or not the write then fails.
unfoldable pub write : Sent → Fault → Text → Upload → Upload
write sent fault context k = let rest = need (step fault context) k in (sent ∷ rest.0, rest.1)

-- The two ways in which a reply other than OK becomes an error.
abbrev pub expect :
    (Text → BackendError)
    → (Text → BackendError)
    → Result Reply BackendError
    → Result (Unit {0}) BackendError
expect on_no on_bye (err e) = err e
expect on_no on_bye (ok okay) = ok tt
expect on_no on_bye (ok (no reason)) = err (on_no reason)
expect on_no on_bye (ok (bye reason)) = err (on_bye reason)

abbrev pub server_bye : Text → Text
server_bye reason = codes "server BYE: " ++ reason

abbrev pub read_until_ok : Result Reply BackendError → Result (Unit {0}) BackendError
read_until_ok r =
    expect (λ reason. protocol (codes "server NO: " ++ reason))
      (λ reason. transport (server_bye reason)) r

-- A response is read, and what it means decides whether the upload goes on with the rest.
unfoldable pub answered :
    {R : Type 0}
    → Reader R
    → (Result Reply BackendError → Result (Unit {0}) BackendError)
    → R
    → (R → Upload)
    → Upload
answered reader f s k = let (r, t) = read_response reader s in need (f r) (k t)

abbrev pub crlf : Text
crlf = 13 ∷ 10 ∷ []

abbrev pub write_command : Text → Fault → Fault → Upload → Upload
write_command cmd fault trailer_fault k =
    write (tls cmd) fault (codes "write " ++ (cmd ++ codes ": "))
      (write (tls crlf) trailer_fault (codes "write " ++ (cmd ++ codes " trailer: ")) k)

abbrev pub auth_blob : Text → Text → Text
auth_blob username password = 0 ∷ (username ++ (0 ∷ password))

abbrev pub authenticate : Text → Text → Text
authenticate username password =
    codes "AUTHENTICATE \"PLAIN\" \"" ++ (base64_encode (auth_blob username password) ++ codes "\"")

abbrev pub put_script : Text → Text → Text
put_script script_name script =
    codes "PUTSCRIPT \""
    ++ (escape_quoted script_name
        ++ (codes "\" {" ++ (show (length script) ++ (codes "+}" ++ crlf))))

abbrev pub set_active : Text → Text
set_active script_name = codes "SETACTIVE \"" ++ (escape_quoted script_name ++ codes "\"")

-- The outcome of the handshake: an error ends the upload.
unfoldable pub secured : {R : Type 0} → Result R Text → (R → Upload) → Upload
secured (err e) k = ([], err (transport (codes "tls handshake: " ++ e)))
secured (ok s) k = k s

-- After the handshake, on the reader over TLS. The last write is best effort: its fault does not matter.
unfoldable pub over_tls :
    {R : Type 0} → Reader R → Network R → R → AccountConfig → Text → Text → Text → Upload
over_tls reader net tls_input cfg password script_name script =
    answered reader read_until_ok tls_input λ s1.
      write_command (authenticate cfg.username password) net.auth_write net.auth_trailer (
        answered reader (expect auth (λ reason. auth (server_bye reason))) s1 λ s2.
          write (tls (put_script script_name script)) net.put_write (codes "PUTSCRIPT write: ") (
            write (tls script) net.put_body (codes "PUTSCRIPT body: ") (
              write (tls crlf) net.put_trailer (codes "PUTSCRIPT trailer: ") (
                answered reader
                  (expect (λ reason. protocol (codes "PUTSCRIPT: " ++ reason))
                    (λ reason. protocol (server_bye reason)))
                  s2
                  λ s3. write_command (set_active script_name) net.active_write net.active_trailer (
                    answered reader
                      (expect (λ reason. protocol (codes "SETACTIVE: " ++ reason))
                        (λ reason. protocol (server_bye reason)))
                      s3 λ s4. (tls (codes "LOGOUT" ++ crlf) ∷ [], ok tt))))))

unfoldable pub put_active_script :
    {R : Type 0} → Reader R → Network R → AccountConfig → Text → Text → Text → Upload
put_active_script reader net cfg password script_name script =
    need (step net.connect (codes "tcp connect: ")) (
      answered reader read_until_ok net.clear_input λ s1.
        write (plain (codes "STARTTLS" ++ crlf)) net.starttls_write (codes "STARTTLS write: ") (
          answered reader read_until_ok s1 λ s2.
            need (step net.server_name (codes "server name: ")) (
              secured (net.handshake s2)
                λ s3. over_tls reader net s3 cfg password script_name script)))
