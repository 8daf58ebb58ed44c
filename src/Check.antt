-- ===== src/Check.antt =====
-- The synchronous checker: gateway/base/checker.py, with `Finding` of gateway/contracts/types.py.
pub mod Detection
pub mod Loop
pub mod Covered
pub mod Green
pub mod Cached
mod Tests
