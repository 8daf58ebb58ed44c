-- ===== src/Redact/Dispatch.antt =====
-- `verify_dispatch` of gateway/redact.py, and what its success says of the bytes.
use zero_trace.Prelude.{
  ℕ, ◌≡◌, refl, ◌↔◌, ◌⊎◌, true, false, not, ◌&&◌, List, [], ◌∷◌, arith, is_nonempty, is_infix, All,
  if◌then◌else◌,
}
use zero_trace.Spans.{Result, ok, err, dispatch_verification}
use zero_trace.Redact.Plan.{PlannedRedaction, RedactionPlan}

-- `decode` is `body.decode("utf-8", errors="replace")`.
unfoldable pub verify_all : List ℕ → List PlannedRedaction → Result (Unit {0})
verify_all text [] = ok tt
verify_all text (r ∷ rs) =
    if is_nonempty r.original && is_infix r.original text
    then err (dispatch_verification r.span_path)
    else if not (is_infix r.replacement text)
    then err (dispatch_verification r.span_path)
    else verify_all text rs

unfoldable pub verify_dispatch : (List ℕ → List ℕ) → List ℕ → RedactionPlan → Result (Unit {0})
unfolding verify_all
verify_dispatch decode body plan =
    if not (is_nonempty plan.redactions) then ok tt else verify_all (decode body) plan.redactions

-- The original, unless it is empty, does not stand in the text, and the replacement does.
abbrev pub Confirmed : List ℕ → PlannedRedaction → Type 0
Confirmed text r =
    ((is_nonempty r.original ≡ false) ⊎ (is_infix r.original text ≡ false))
    × (is_infix r.replacement text ≡ true)

verify_all_iff :
    (text : List ℕ) (rs : List PlannedRedaction)
    → (verify_all text rs ≡ ok tt) ↔ All (Confirmed text) rs
unfolding verify_all
verify_all_iff text [] = ground arith
verify_all_iff text (r ∷ rs) = ground (arith, verify_all_iff text rs)

-- The early return for an empty plan is the loop over no redaction.
empty_plan :
    (text : List ℕ) (rs : List PlannedRedaction)
    → (if not (is_nonempty rs) then ok tt else verify_all text rs) ≡ verify_all text rs
unfolding verify_all
empty_plan text [] = refl
empty_plan text (r ∷ rs) = refl

verify_dispatch-all :
    (decode : List ℕ → List ℕ) (body : List ℕ) (plan : RedactionPlan)
    → verify_dispatch decode body plan ≡ verify_all (decode body) plan.redactions
unfolding verify_dispatch
verify_dispatch-all decode body plan = empty_plan (decode body) plan.redactions

-- The check passes exactly when every planned original is absent from the decoded body and every
-- replacement is in it.
pub verify_dispatch_iff :
    (decode : List ℕ → List ℕ) (body : List ℕ) (plan : RedactionPlan)
    → (verify_dispatch decode body plan ≡ ok tt) ↔ All (Confirmed (decode body)) plan.redactions
verify_dispatch_iff decode body plan =
    rw verify_dispatch-all (verify_all_iff (decode body) plan.redactions)
