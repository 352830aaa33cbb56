-- ===== src/Lib.antt =====
-- Thundercrab, a mail client whose filing rules are learned from the user's own moves and shared
-- through a ledger of signed suggestions. This library models the logic of the workspace's crates,
-- one module for each part:
--
--   * Rule: the rule schema, `CrabRule` with its match expressions and actions
--     (thundercrab-core/src/crab_rule.rs).
--   * Db, with Db/State: the local SQLite store of rules and flag events (thundercrab-core/src/db.rs,
--     flag_event.rs): `open`, `init`, `save_rule`, `load_rules`, `delete_rule`, `record_flag`,
--     `count_flags_to`, `flag_counts_by_domain_dest`. Db/Spec has the finite map that Db/Rules
--     compares the rule table with.
--   * Derive, with Derive/Sums: `derive_rule_candidates` and `sanitize_id`
--     (thundercrab-suggestions/src/derive.rs), which turn grouped flag counts into rules.
--     Derive/Learned takes the counts from the tables of Db.
--   * Safety: `apply_suggestion`, `check_action` and `is_safe_match`
--     (thundercrab-suggestions/src/safety.rs), which every federated rule passes through.
--   * Json: serde_json's values and `sort_value`, which thundercrab-suggestions/src/ledger.rs and
--     crab-ledger/src/api.rs declare with the same text.
--   * Signing, with Signing/Wire: signed suggestions, `Suggestion::new`, `InstallKey::sign`, `verify`
--     (thundercrab-suggestions/src/ledger.rs). Signing/HexArray has its `hex_array_32` and
--     `hex_array_64`, the encoding of keys, hashes and signatures.
--   * Ledger/Store: the corroboration table of the server (crab-ledger/src/store.rs): `open`, `upsert`,
--     `list_aggregated`, `total_unique_patterns`.
--   * Ledger/Pow: the proof-of-work gate, and Ledger/Api: `handle_submit`, `handle_suggestions` and
--     `handle_health` (crab-ledger/src/api.rs). Ledger/Api/History has the states that runs of
--     submissions lead to, one after another, Ledger/Api/Honest the way of an honest suggestion, and
--     Ledger/Api/Lasting what later submissions leave of it.
--   * Ledger/Threads: submissions that are handled at the same time, as a relation whose steps are
--     those of single requests: the global limiter, the limiter of the key with the checks behind
--     it, and the upsert. Ledger/Threads/Sequential relates it to the handlers one after another,
--     Ledger/Threads/Quota counts against the limiters, whose laws are the record `IsGcra` there.
--   * Ledger/Server: `router` (crab-ledger/src/api.rs) and `main` (crab-ledger/src/main.rs), over axum
--     and tower-http as a record, `Tower`, and the environment as another, `Host`.
--   * Backend: settings, errors, records and the trait `Backend` of the mail backends
--     (thundercrab-imap/src/lib.rs), which Imap/Client fills and Cli and Gui call.
--   * Sieve: the ManageSieve client (thundercrab-imap/src/managesieve.rs): `put_active_script` in
--     Sieve/Session, `read_response` and `parse_literal_marker` in Sieve/Response, with the lines
--     that end a response in Sieve/Response/Lines; `escape_quoted`, `base64_encode`. Sieve/Reader has the buffered reader that responses come from, as a record of
--     operations, with what its documentation says.
--   * Imap: the IMAP backend (thundercrab-imap/src/rust_imap.rs): `connect` and how methods chain the
--     commands of a session in Imap/Session, `parse_headers` in Imap/Headers, `list_folders` and
--     `put_sieve` in Imap/Folders, `fetch_headers` in Imap/Fetch, `move_message` and `set_flag` in
--     Imap/Move. Imap/Move/Safety and Imap/ReadOnly state what the RFCs promise of a server, as records
--     of laws.
--   * Smtp: `send_message` (thundercrab-imap/src/smtp.rs).
--   * Cli: the commands of `crab` (thundercrab-cli/src/main.rs), which use the three clients.
--   * ListInbox: the program thundercrab-imap/examples/list_inbox.rs.
--   * Gui: `App::update` and `connect_and_list` of the window (thundercrab-gui/src/main.rs), and its
--     `App::view` in Gui/View, as a tree of elements. Gui/Flight has the states that runs with tasks
--     in flight lead to.
--   * Prelude: texts, results, 64-bit integers, sorting, hexadecimal text and the lemmas that the
--     parts share.
--
-- A submission goes through the limiters, the proof of work, `verify` and `upsert`; a query reads
-- the table back. On the client the store's grouped counts feed `derive_rule_candidates`, and the
-- rules that come from the ledger pass `apply_suggestion`. The command line and the window call
-- the backends: `crab push-sieve` uploads a script, `crab send` submits a message, and both programs
-- open an IMAP session to list or fetch.
--
-- State is passed explicitly. A text is the list of its code points and a byte string a list of
-- numbers. A SQLite table is the list of its rows in the order of insertion; each statement has a
-- fault as an argument, and fails with that message and no effect, or runs. A handler runs on a
-- decoded request. What the handlers share is the store, behind a mutex, and the limiters, which are
-- atomic; so `handle_submit` may be interleaved between these, and Ledger/Threads lets its steps
-- come in any order, with requests dropped at any of them. A limiter reads the clock in the step
-- that it decides in. Counts of SQLite are natural numbers and stay below 2^63 in any file that can
-- exist; the sums of `derive_rule_candidates` wrap around at 64 bits. Loops are structural recursion
-- on lists, rules or JSON values, but for that of `read_response`, whose fuel is one round for each
-- byte that is still to come and one more. A round that goes on has consumed a byte, so this is
-- enough. The one other bound is that of `show` in Prelude/Decimal, whose twenty digits hold every
-- 64-bit number.
--
-- What is not in this repository is a parameter: ed25519-dalek, blake3 and serde_json in
-- Signing/Wire, Ledger/Api/State and Db/State, the hex crate in Signing/HexArray, the governor
-- crate's limiters in Ledger/Api/State, and the arithmetic of f64 in Derive/Float. JSON numbers are
-- integers, since the encoded records hold no other number.
--
-- Of the mail side, tokio's buffered reader in Sieve/Reader, the outcomes of the network, what
-- the TLS connector makes of the stream that the answers in the clear leave, the decoding of header bytes in Imap, the commands of async-imap's session in Imap/Session, the mail
-- library lettre in Smtp, and the environment and the files of Cli are parameters too. Each law that
-- a theorem takes of them has an instance among the tests.
--
-- Not modelled: sockets and TLS, the allocation of the buffer for a ManageSieve literal, whose length
-- the server chooses, the parsing of the command line, the sizes and distances of the window, the set-up
-- of logging, the files and the columns of the tables, key generation, and the encoders that serde
-- derives.
pub mod Backend
pub mod Cli
pub mod Db
pub mod Derive
pub mod Gui
pub mod Imap
pub mod Json
pub mod Ledger
pub mod ListInbox
pub mod Prelude
pub mod Rule
pub mod Safety
pub mod Sieve
pub mod Signing
pub mod Smtp
