-- ===== src/Imap.antt =====
-- thundercrab-imap/src/rust_imap.rs: the IMAP backend, over a session of the client library that is
-- not in this repository.
pub mod Session
pub mod Headers
pub mod Folders
pub mod Fetch
pub mod Move
pub mod Client
pub mod ReadOnly
pub mod Tests
