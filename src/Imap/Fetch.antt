-- ===== src/Imap/Fetch.antt =====
-- `fetch_headers` of thundercrab-imap/src/rust_imap.rs.
pub mod Newest
use thundercrab.Prelude.{
  ℕ, ◌+◌, ◌-◌, ◌%◌, ◌^◌, Text, codes, ◌++◌, Option, none, some, List, [], ◌∷◌, Result, ok, err, ltb,
  ◌==◌, if◌then◌else◌,
}
use thundercrab.Prelude.Decimal.{show}
use thundercrab.Backend.{Method, BackendError, protocol, MessageHeaders}
use thundercrab.Prelude.Strings.{Bytes}
use thundercrab.Imap.Session.{
  Commands, Mailbox, Address, Envelope, Fetched, Items, pure, and_then, call, collect,
}
use thundercrab.Imap.Headers.{parse_headers}

-- The sequence numbers that are asked for: `first:last`, or `1:*`.
pub data Range : Type 0 where
  span : (first last : ℕ) → Range
  everything : Range

abbrev pub show_range : Range → Text
show_range (span first last) = show first ++ (b':' ∷ show last)
show_range everything = codes "1:*"

-- The arithmetic of `u32`, which wraps round in a release build.
unfoldable pub fetch_range : Option ℕ → ℕ → Range
fetch_range none total = everything
fetch_range (some n) total =
    if ltb n total then span ((total - n + 1) % 2 ^ 32) total else everything

module _ (lossy : Bytes → Text) where
  abbrev pub decoded_or_empty : Option Bytes → Text
  decoded_or_empty none = []
  decoded_or_empty (some b) = lossy b

  abbrev pub first_address : Option (List Address) → Text
  first_address none = []
  first_address (some []) = []
  first_address (some (a ∷ rest)) = decoded_or_empty a.mailbox ++ (b'@' ∷ decoded_or_empty a.host)

  abbrev pub from_of : Option Envelope → Text
  from_of none = []
  from_of (some e) = first_address e.from

  abbrev pub subject_of : Option Envelope → Text
  subject_of none = []
  subject_of (some e) = decoded_or_empty e.subject

  abbrev pub raw_header : Option Bytes → Bytes
  raw_header none = []
  raw_header (some b) = b

  abbrev pub uid_of : Option ℕ → ℕ
  uid_of none = 0
  uid_of (some n) = n

  abbrev pub message_headers : Text → Fetched → MessageHeaders
  message_headers folder f = record {
    uid = uid_of f.uid;
    folder = folder;
    from = from_of f.envelope;
    subject = subject_of f.envelope;
    other_headers = parse_headers lossy (raw_header f.header);
  }

  -- The loop over the stream: the first item that is an error ends it.
  unfoldable pub messages : Text → Items Fetched → Result (List MessageHeaders) BackendError
  messages folder [] = ok []
  messages folder (err e ∷ items) = err (protocol (codes "fetch item: " ++ e))
  messages folder (ok f ∷ items) = elim (messages folder items) [
    | ok rest ↦ ok (message_headers folder f ∷ rest)
    | err e ↦ err e
  ]

  module _ {ℓ} {S : Type ℓ} (imap : Commands S) where
    abbrev pub fetch_all : Text → Option ℕ → ℕ → Method S (List MessageHeaders)
    fetch_all folder limit total s =
        let range = show_range (fetch_range limit total) in
        and_then
          (call (codes "fetch " ++ (folder ++ (b' ' ∷ (range ++ codes ": "))))
            (imap.fetch range (codes "(UID ENVELOPE BODY.PEEK[HEADER])")) s)
          λ items. pure (messages folder items)

    unfoldable pub fetch_headers : Text → Option ℕ → Method S (List MessageHeaders)
    fetch_headers folder limit s =
        and_then (call (codes "examine " ++ (folder ++ codes ": ")) (imap.examine folder) s)
          λ status t.
            if status.exists == 0 then (ok [], t) else fetch_all folder limit status.exists t
