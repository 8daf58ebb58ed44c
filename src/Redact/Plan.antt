-- ===== src/Redact/Plan.antt =====
-- `plan_redaction` and `apply_redaction` of gateway/redact.py.
use zero_trace.Prelude.{
  ℕ, String, Bool, true, false, not, Option, none, some, List, [], ◌∷◌, ◌++◌, contains, codes,
  slice, if◌then◌else◌,
}
use zero_trace.Spans.{Span, is_redactable, Result, ok, ◌>>=◌}
use zero_trace.Spans.Tree.{SpanTree, by_path, replace, serialise}
use zero_trace.Redact.Vault.{TextOps, derive_token, shape_preserving_pending}

pub data Action : Type 0 where
  allow warn tokenize mask block : Action

-- The fields of `Finding` that planning reads.
pub record Finding : Type 0 where
  pub span_path : String
  pub start : ℕ
  pub end : ℕ
  pub entity_class : String
  pub advisory_only : Bool

pub record PlannedRedaction : Type 0 where
  pub span_path : String
  pub start : ℕ
  pub end : ℕ
  pub entity_class : String
  pub replacement : List ℕ
  pub original : List ℕ

pub record RedactionPlan : Type 0 where
  pub action : Action
  pub redactions : List PlannedRedaction
  pub degraded_formats : List String
  -- The path and the class of each finding that is reported and not edited.
  pub skipped_read_only : List (String × String)

pub data Planned : Type 0 where
  planned : RedactionPlan → Planned
  -- DispatchVerificationError for an unknown span.
  unknown_span : String → Planned
  credential_never_tokenized : String → Planned

-- `span is not None and span.origin not in REDACTABLE_ORIGINS`
abbrev pub read_only : Option Span → Bool
read_only none = false
read_only (some s) = not (is_redactable s.origin)

-- The first loop: read-only accounting.
unfoldable pub skipped : SpanTree → List Finding → List (String × String)
skipped tree [] = []
skipped tree (f ∷ fs) =
    let rest = skipped tree fs in
    if read_only (by_path tree f.span_path) then (f.span_path, f.entity_class) ∷ rest else rest

-- `set.add`
abbrev pub add_class : String → List String → List String
add_class c cs = if contains c cs then cs else c ∷ cs

abbrev pub is_quiet : Action → Bool
is_quiet Action.allow = true
is_quiet Action.warn = true
is_quiet Action.block = true
is_quiet _ = false

module _ (ops : TextOps) (tenant_key scope_key : List ℕ) (tree : SpanTree) where
  -- `f"⟨{class}⟩"` under MASK, else the derived token; none is a credential under TOKENIZE.
  unfoldable pub replacement_for : Action → String → List ℕ → Option (List ℕ)
  replacement_for Action.mask c original = some (codes "⟨" ++ (codes c ++ codes "⟩"))
  replacement_for _ c original = derive_token ops tenant_key scope_key c original 0

  abbrev pub degraded : Action → String → List String → List String
  degraded Action.mask c cs = cs
  degraded _ c cs = if shape_preserving_pending c then add_class c cs else cs

  abbrev pub add_redaction : Finding → List ℕ → List ℕ → RedactionPlan → RedactionPlan
  add_redaction f original replacement plan = record plan {
    redactions =
        plan.redactions
        ++ record {
          span_path = f.span_path;
          start = f.start;
          end = f.end;
          entity_class = f.entity_class;
          replacement = replacement;
          original = original;
        }
          ∷ [];
    degraded_formats = degraded plan.action f.entity_class plan.degraded_formats;
  }

  -- One iteration of the second loop.
  unfoldable pub plan_one : Finding → RedactionPlan → Planned
  unfolding replacement_for
  plan_one f plan = if f.advisory_only then planned plan else elim (by_path tree f.span_path) [
    | none ↦ unknown_span f.span_path
    | some span ↦
        if not (is_redactable span.origin)
        then planned plan
        else elim (replacement_for plan.action f.entity_class (slice span.text f.start f.end)) [
          | none ↦ credential_never_tokenized f.entity_class
          | some replacement ↦
              planned (add_redaction f (slice span.text f.start f.end) replacement plan)
        ]
  ]

  unfoldable pub plan_all : List Finding → RedactionPlan → Planned
  unfolding plan_one
  plan_all [] plan = planned plan
  plan_all (f ∷ fs) plan = elim (plan_one f plan) [
    | planned next ↦ plan_all fs next
    | unknown_span p ↦ unknown_span p
    | credential_never_tokenized c ↦ credential_never_tokenized c
  ]

  unfoldable pub plan_redaction : List Finding → Action → Planned
  unfolding skipped plan_all
  plan_redaction findings action =
      let plan : RedactionPlan = record {
        action = action;
        redactions = [];
        degraded_formats = [];
        skipped_read_only = skipped tree findings;
      } in
      if is_quiet action then planned plan else plan_all findings plan

-- The loop of `apply_redaction`, which records every edit.
unfoldable pub record_edits : SpanTree → List PlannedRedaction → Result SpanTree
record_edits tree [] = ok tree
record_edits tree (r ∷ rs) =
    replace tree r.span_path r.start r.end r.replacement >>= λ next. record_edits next rs

unfoldable pub apply_redaction : (List ℕ → List ℕ) → SpanTree → RedactionPlan → Result (List ℕ)
unfolding record_edits
apply_redaction encode tree plan = do
  edited ← record_edits tree plan.redactions
  serialise encode edited
