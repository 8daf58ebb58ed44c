-- ===== src/Redact.antt =====
-- gateway/redact.py and gateway/vault/derive.py: planning a redaction, applying it, and the check of
-- the bytes that are about to leave.
pub mod Vault
pub mod Plan
pub mod Dispatch
pub mod Coverage
mod Tests
