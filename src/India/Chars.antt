-- ===== src/India/Chars.antt =====
-- What the detectors of gateway/detectors/india_id.py ask of Python's text operations.
use zero_trace.Prelude.{ℕ, Bool, List}

-- `isalnum`, `isdigit` and `int` of one code point, `lower` of a text, and the search of the
-- compiled `_KEY_RE`.
pub record Chars : Type 0 where
  pub is_alnum : ℕ → Bool
  pub is_digit : ℕ → Bool
  pub digit_value : ℕ → ℕ
  pub lower : List ℕ → List ℕ
  pub key_re_search : List ℕ → Bool
