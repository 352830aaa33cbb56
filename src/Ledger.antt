-- ===== src/Ledger.antt =====
-- crab-ledger: the public corroboration ledger.
pub mod Store
pub mod Pow
pub mod Api
pub mod Threads
pub mod Server
