-- ===== src/Ledger.antt =====
-- The gateway's evidence ledger, gateway/ledger/chain.py.
pub mod Json
pub mod Safe
pub mod Hashing
pub mod Chain
pub mod Append
pub mod Tamper
pub mod Model
mod Tests
