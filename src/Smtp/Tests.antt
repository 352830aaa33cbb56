-- ===== src/Smtp/Tests.antt =====
-- Runs of `send_message`, and its theorem at a concrete message.
pub mod Library
use thundercrab.Prelude.{◌≡◌, refl, codes, [], ◌∷◌, err, ok, Text}
use thundercrab.Backend.{protocol, AccountConfig, plausiden}
use thundercrab.Smtp.{
  start_tls, implicit_tls, OutboundMessage, parse_all, build, submit, send_message,
}
use thundercrab.Smtp.Recipients.{IsDelivery, send_message-IsDelivery}
use thundercrab.Smtp.Tests.Library.{library}

abbrev config : AccountConfig
config = plausiden (codes "h") (codes "u@h")

abbrev message : OutboundMessage
message = record {
  from = codes "u@h";
  to = codes "a@b" ∷ [];
  cc = codes "nowhere" ∷ [];
  subject = codes "s";
  body = codes "b";
}

-- An address that is refused, in the last place.
kept_back :
    send_message library config (codes "p") start_tls message
    ≡ ([], err (protocol (codes "mailbox nowhere: no at sign")))
unfolding parse_all build submit send_message
kept_back = refl

send_message-IsDelivery_example :
    IsDelivery library config
      (codes "p")
      implicit_tls
      (record message { cc = [] })
      (send_message library config (codes "p") implicit_tls (record message { cc = [] }))
send_message-IsDelivery_example =
    send_message-IsDelivery library config (codes "p") implicit_tls (record message { cc = [] })
