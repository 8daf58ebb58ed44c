-- ===== src/Scan.antt =====
-- The scanner's own logic: gateway/base/scanner.py.
pub mod Dedupe
pub mod Chunks
pub mod Best
pub mod Sorted
pub mod Cover
mod Tests
use zero_trace.Prelude.{ℕ, String, Bool}

-- `Finding`, with the confidence in hundredths.
pub record Finding : Type 0 where
  pub span_path : String
  pub start : ℕ
  pub end : ℕ
  pub entity_class : String
  pub confidence : ℕ
  pub tier : ℕ
  pub detector_name : String
  pub advisory_only : Bool
