-- ===== src/Sieve.antt =====
-- thundercrab-imap/src/managesieve.rs: quoting, base64, the reading of responses and the upload of a
-- script.
pub mod Base64
pub mod Quoted
pub mod Reader
pub mod Response
pub mod Session
pub mod Secrecy
pub mod Success
pub mod Tests
