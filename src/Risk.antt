-- ===== src/Risk.antt =====
-- How suspicious a session is: gateway/base/risk.py.
pub mod Signals
pub mod Quiet
pub mod Tidy
mod Tests
