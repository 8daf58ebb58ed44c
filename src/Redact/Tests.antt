-- ===== src/Redact/Tests.antt =====
-- Runs of redaction planning and of the dispatch check, and their theorems at them.
use zero_trace.Prelude.{
  ℕ, String, ◌≡◌, refl, ◌↔◌, Bool, true, false, none, some, List, [], ◌∷◌, ◌++◌, leb, ◌&&◌, codes,
  All,
}
use zero_trace.Policy.{outbound}
use zero_trace.Spans.{Origin, Span, ok}
use zero_trace.Spans.Tree.{SpanTree, find_span, replace, serialise}
use zero_trace.Spans.CharEdits.{apply_char_edits}
use zero_trace.Spans.Splice.{splice_all}
use zero_trace.Redact.Vault.{TextOps, derive_token}
use zero_trace.Redact.Plan.{
  Action, Finding, PlannedRedaction, RedactionPlan, planned, plan_redaction,
  credential_never_tokenized, apply_redaction,
}
use zero_trace.Redact.Coverage.{Handled, plan_redaction-Handled}
use zero_trace.Redact.Dispatch.{Confirmed, verify_dispatch, verify_dispatch_iff}

-- Texts that need no stripping or folding, and a MAC that repeats its message.
abbrev plain : TextOps
plain = record {
  strip = λ t. t;
  lower = λ t. t;
  upper = λ t. t;
  split = λ t. t ∷ [];
  is_digit = λ c. leb b'0' c && leb c b'9';
  mac_text = λ k m. m;
}

abbrev span : String → Origin → List ℕ → ℕ → ℕ → Span
span path origin text a b = record {
  path = path;
  text = text;
  origin = origin;
  bytes = some (a, b);
  parent_path = none;
  parent_char_offset = 0;
  leg = outbound;
}

-- The raw request is the two texts with a bar between them.
abbrev tree : SpanTree
tree = record {
  raw = codes "be kind|my pan is ABCDE";
  spans =
      span "system" Origin.system (codes "be kind") 0 7
      ∷ span "messages[0].content" Origin.user (codes "my pan is ABCDE") 8 23
      ∷ [];
  edits = [];
}

abbrev finding : String → ℕ → ℕ → String → Bool → Finding
finding path a b c advisory = record {
  span_path = path;
  start = a;
  end = b;
  entity_class = c;
  advisory_only = advisory;
}

abbrev findings : List Finding
findings =
    finding "system" 0 2 "PERSON" false
    ∷ finding "messages[0].content" 10 15 "PAN" false
    ∷ finding "messages[0].content" 0 2 "ORG" true
    ∷ []

abbrev redaction : PlannedRedaction
redaction = record {
  span_path = "messages[0].content";
  start = 10;
  end = 15;
  entity_class = "PAN";
  replacement = codes "⟨PAN⟩";
  original = codes "ABCDE";
}

abbrev plan : RedactionPlan
plan = record {
  action = Action.mask;
  redactions = redaction ∷ [];
  degraded_formats = [];
  skipped_read_only = ("system", "PERSON") ∷ [];
}

findings_are_planned : plan_redaction plain [] [] tree findings Action.mask ≡ planned plan
unfolding plan_redaction find_span
findings_are_planned = refl

credential_is_refused :
    plan_redaction plain [] [] tree
      (finding "messages[0].content" 10 15 "JWT" false ∷ [])
      Action.tokenize
    ≡ credential_never_tokenized "JWT"
unfolding plan_redaction find_span derive_token
credential_is_refused = refl

plan_is_applied : apply_redaction (λ t. t) tree plan ≡ ok (codes "be kind|my pan is ⟨PAN⟩")
unfolding apply_redaction find_span replace serialise apply_char_edits splice_all
plan_is_applied = refl

plan_redaction-Handled_example : All (Handled tree plan) findings
plan_redaction-Handled_example =
    plan_redaction-Handled plain [] [] tree findings Action.mask plan findings_are_planned refl

verify_dispatch_iff_example :
    (verify_dispatch (λ b. b) (codes "be kind|my pan is ⟨PAN⟩") plan ≡ ok tt)
    ↔ All (Confirmed (codes "be kind|my pan is ⟨PAN⟩")) (redaction ∷ [])
verify_dispatch_iff_example = verify_dispatch_iff (λ b. b) (codes "be kind|my pan is ⟨PAN⟩") plan

-- A key of two lines: the body, JSON on one line, holds it with `\\n` for the newline.
abbrev two_lines : RedactionPlan
two_lines = record {
  action = Action.mask;
  redactions =
      record {
        span_path = "messages[0].content";
        start = 0;
        end = 3;
        entity_class = "PAN";
        replacement = codes "⟨PAN⟩";
        original = b'A' ∷ 10 ∷ b'B' ∷ [];
      }
      ∷ [];
  degraded_formats = [];
  skipped_read_only = [];
}

abbrev leaking : List ℕ
leaking = codes "⟨PAN⟩ A" ++ (92 ∷ b'n' ∷ b'B' ∷ [])

escaped_original_is_not_found : verify_dispatch (λ b. b) leaking two_lines ≡ ok tt
unfolding verify_dispatch
escaped_original_is_not_found = refl
