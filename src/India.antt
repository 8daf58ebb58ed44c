-- ===== src/India.antt =====
-- gateway/detectors/india_id.py: Indian government identifiers.
pub mod Verhoeff
pub mod Dihedral
pub mod Errors
pub mod Gstin
pub mod Chars
pub mod Detectors
pub mod Confirm
mod Tests
