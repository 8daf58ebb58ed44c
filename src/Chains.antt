-- ===== src/Chains.antt =====
-- The two-chain ledger of the control database: Control-DB/zerotrace/ledger/chain.py and records.py.
pub mod Records
pub mod Fields
pub mod Rows
pub mod Roots
pub mod Bindings
pub mod Verify
pub mod Linked
pub mod Bound
pub mod Keeps
pub mod Anchored
pub mod Shape
pub mod Verdict
pub mod Step
pub mod Promise
mod Tests
