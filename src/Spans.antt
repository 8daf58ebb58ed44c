-- ===== src/Spans.antt =====
-- Spans and the edits on them: gateway/spans/model.py and the origins of gateway/contracts/types.py.
pub mod CharEdits
pub mod Splice
pub mod Tree
pub mod Weave
pub mod Edited
mod Tests
use zero_trace.Prelude.{ℕ, ◌+◌, ◌<◌, String, Bool, true, false, Option, none, some, List}
use zero_trace.Policy.{Leg}

pub data Origin : Type 0 where
  system tool_definition user assistant tool_call tool_result metadata : Origin

-- `origin in REDACTABLE_ORIGINS`
abbrev pub is_redactable : Origin → Bool
is_redactable Origin.user = true
is_redactable Origin.assistant = true
is_redactable Origin.tool_call = true
is_redactable Origin.tool_result = true
is_redactable _ = false

-- `text` is a list of code points. The byte range is none for a detection-only span, whose offsets
-- are NO_BYTE_RANGE. `lang_hint` is read by no operation here.
pub record Span : Type 0 where
  pub path : String
  pub text : List ℕ
  pub origin : Origin
  pub bytes : Option (ℕ × ℕ)
  pub parent_path : Option String
  pub parent_char_offset : ℕ
  pub leg : Leg

pub record Edit : Type 0 where
  pub span_path : String
  pub start : ℕ
  pub end : ℕ
  pub replacement : List ℕ

pub data Error : Type 0 where
  span_not_found span_offset_error : String → Error
  overlapping_edits : Error
  dispatch_verification : String → Error

pub data Result {ℓ} (A : Type ℓ) : Type ℓ where
  ok : A → Result A
  err : Error → Result A

infixl 5 ◌>>=◌
abbrev pub ◌>>=◌ {ℓ κ} : {A : Type ℓ} {B : Type κ} → Result A → (A → Result B) → Result B
ok a >>= f = f a
err e >>= f = err e
