-- ===== src/Identity.antt =====
-- Who a request comes from: Control-DB/zerotrace/identity/resolve.py.
pub mod Callers
pub mod Resolve
pub mod Isolated
pub mod Registered
pub mod Unregistered
mod Tests
