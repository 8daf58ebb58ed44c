-- ===== src/Gate.antt =====
-- The data plane of the control gateway: Control-DB/zerotrace/gateway/redact.py and
-- routes_dataplane.py, and the span paths of Control-DB/zerotrace/spans/paths.py.
pub mod Node
pub mod Paths
pub mod Masking
pub mod Located
pub mod Verified
pub mod Evidence
pub mod Headers
pub mod Handler
pub mod Cases
pub mod Protocol
pub mod Follows
pub mod Outcomes
pub mod Kept
mod Tests
