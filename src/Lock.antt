-- ===== src/Lock.antt =====
-- The locks of the ledger's writers: Control-DB/zerotrace/store/kv.py.
pub mod Leases
pub mod Exclusive
mod Tests
