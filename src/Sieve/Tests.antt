-- ===== src/Sieve/Tests.antt =====
-- Runs of the ManageSieve client, and its theorems at concrete inputs.
pub mod Stream
use thundercrab.Prelude.{
  ◌≡◌, refl, true, false, Text, List, codes, none, some, [], ◌∷◌, ◌++◌, ok, err, All, arith, map,
}
use thundercrab.Sieve.Base64.{char_at, base64_encode, base64_decode}
use thundercrab.Sieve.Quoted.{escape_char, escape_quoted, read_quoted, read_quoted-escape_quoted}
use thundercrab.Prelude.Decimal.{decimal}
use thundercrab.Prelude.Strings.{
  is_whitespace, trim_start_by, trim_end_by, strip_prefix, split_last,
}
use thundercrab.Backend.{auth, AccountConfig, plausiden}
use thundercrab.Sieve.Reader.{Reader}
use thundercrab.Sieve.Tests.Stream.{
  Input, Utf8, split_line, read_line, read_exact, over_bytes, over_bytes-Consumes,
  over_bytes-Delivers,
}
use thundercrab.Sieve.Response.{
  no, parse_digits, parse_usize, parse_literal_marker, terminator, drain, handle_line, round,
  read_rounds, read_response,
}
use thundercrab.Sieve.Response.Total.{read_rounds-eq}
use thundercrab.Sieve.Response.Marker.{marker, parse_literal_marker-marker}
use thundercrab.Sieve.Response.Lines.{IsMiddle, no_line, Lacks-IsUnmarked}
use thundercrab.Sieve.Response.Sync.{
  is_line, IsLine-of_test, Part, line, literal, response_bytes, read_response-response_bytes,
}
use thundercrab.Sieve.Session.{
  Network, plain, tls, need, write, answered, secured, over_tls, put_active_script,
}
use thundercrab.Sieve.Secrecy.{IsPrivate, put_active_script-IsPrivate}

runs : Unit {0}
unfolding char_at base64_encode base64_decode escape_char escape_quoted read_quoted need write
    secured decimal over_tls put_active_script answered is_whitespace trim_start_by trim_end_by
    strip_prefix split_last split_line is_line read_line read_exact parse_digits parse_usize
    parse_literal_marker terminator drain handle_line round read_rounds read_response
runs = tt

base64_encodes_known_vectors :
    map base64_encode (codes "f" ∷ codes "fo" ∷ codes "foo" ∷ codes "foobar" ∷ [])
    ≡ codes "Zg==" ∷ codes "Zm8=" ∷ codes "Zm9v" ∷ codes "Zm9vYmFy" ∷ []
unfolding runs
base64_encodes_known_vectors = refl

escape_handles_quote_and_backslash : escape_quoted (codes "a\"b\\") ≡ codes "a\\\"b\\\\"
unfolding runs
escape_handles_quote_and_backslash = refl

read_quoted-escape_quoted_example :
    read_quoted false (escape_quoted (codes "a\"b") ++ (b'"' ∷ codes " x"))
    ≡ some (codes "a\"b", codes " x")
read_quoted-escape_quoted_example = read_quoted-escape_quoted (codes "a\"b") (codes " x")

-- A reader whose decoder takes every byte for a character.
abbrev every_byte : Utf8
every_byte bytes = some bytes

abbrev latin : Reader Input
latin = over_bytes every_byte

abbrev lines : Text → Input
lines s = record { bytes = s; failure = none }

read_rounds-eq_example :
    read_rounds 5 latin (lines (codes "OK\r\n"))
    ≡ some (read_response latin (lines (codes "OK\r\n")))
read_rounds-eq_example =
    read_rounds-eq 5 latin (over_bytes-Consumes every_byte) (lines (codes "OK\r\n")) (omega arith)

-- A literal whose bytes look like a terminator.
abbrev parts : List Part
parts = line (codes "\"SASL\"") ∷ literal [] false (codes "OK\r\n") [] ∷ []

quoted_line : IsMiddle (codes "\"SASL\"")
quoted_line = ((λ h. omega (arith, h.0)), (λ h. omega (arith, h.0)), (λ h. omega (arith, h.0)))

read_response-response_bytes_example :
    read_response latin (lines (response_bytes parts (codes "NO x") (codes "OK")))
    ≡ (ok (no (codes "x")), lines (codes "OK"))
unfolding runs
read_response-response_bytes_example =
    read_response-response_bytes latin lines parts (no_line (codes " x")) (codes "OK")
      (over_bytes-Consumes every_byte) (over_bytes-Delivers every_byte none (λ bytes h. refl))
      (
        (
          IsLine-of_test (codes "\"SASL\"") refl,
          Lacks-IsUnmarked (codes "\"SASL\"") (ground arith),
          quoted_line,
        ),
        ((tt, omega arith, tt), tt),
      )
      (IsLine-of_test (codes "NO x") refl) (Lacks-IsUnmarked (codes "NO x") (ground arith))

abbrev two_okay : Text
two_okay = codes "\"IMPLEMENTATION\" \"x\"\r\nOK\r\nOK begin\r\n"

abbrev refusing : Network Input
refusing = record {
  connect = none;
  clear_input = lines two_okay;
  starttls_write = none;
  server_name = none;
  handshake = λ s. ok (lines (codes "OK\r\nNO x\r\n"));
  auth_write = none;
  auth_trailer = none;
  put_write = none;
  put_body = none;
  put_trailer = none;
  active_write = none;
  active_trailer = none;
}

abbrev config : AccountConfig
config = plausiden (codes "h") (codes "u")

refused : put_active_script latin refusing config (codes "p") (codes "s") (codes "keep;") ≡ (
  plain (codes "STARTTLS\r\n")
      ∷ tls (codes "AUTHENTICATE \"PLAIN\" \"AHUAcA==\"")
      ∷ tls (codes "\r\n")
      ∷ [],
  err (auth (codes "x")),
)
unfolding runs
refused = refl

put_active_script-IsPrivate_example :
    All
      (IsPrivate latin refusing)
      (put_active_script latin refusing config (codes "p") (codes "s") (codes "keep;")).0
put_active_script-IsPrivate_example =
    put_active_script-IsPrivate latin refusing config (codes "p") (codes "s") (codes "keep;")

abbrev accepting : Network Input
accepting = record refusing { handshake = λ s. ok (lines (codes "OK\r\nOK\r\nOK\r\nOK\r\n")) }
