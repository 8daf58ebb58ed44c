-- ===== src/Gate/Verified.antt =====
-- What the success of `verify_dispatch` of Control-DB/zerotrace/gateway/redact.py says, and two
-- decisions on one span.
use mathlib.Core.Path.{subst}
use mathlib.Core.Bool.{false≢true}
use zero_trace.Prelude.{
  ℕ, String, ◌≡◌, ◌≢◌, refl, sym, ap, ◌∙◌, ◌↔◌, true, false, Option, some, List, [], ◌∷◌, ◌++◌,
  arith, All, All-pick,
}
use zero_trace.Policy.{Finding}
use zero_trace.Policy.Decide.{Decision}
use zero_trace.Gate.Node.{Node, text, text_eq, walk_strings}
use zero_trace.Gate.Paths.{get}
use zero_trace.Gate.Masking.{
  enforce, AppliedEdit, RedactionResult, passes, applied_as, replacement_of, edited, apply_one,
  apply_all, apply, holds_replacement, misplaced, survivors_of, survivors, failures_of,
  verify_dispatch,
}
use zero_trace.Gate.Located.{get-set_, set_-get, get-walk_strings}

-- The body holds each edit's replacement at its path.
abbrev pub InPlace : Node → List AppliedEdit → Type 0
InPlace body es = All (λ e. holds_replacement body e ≡ true) es

-- No text is an edit's original.
abbrev pub NoneSurvives : List (List ℕ) → List AppliedEdit → Type 0
NoneSurvives ss es = All (λ s. All (λ (e : AppliedEdit). text_eq s e.original ≡ false) es) ss

misplaced-InPlace :
    (body : Node) (es : List AppliedEdit) → (misplaced body es ≡ []) ↔ InPlace body es
unfolding misplaced
misplaced-InPlace body [] = ground arith
misplaced-InPlace body (e ∷ es) = ground (arith, misplaced-InPlace body es)

survivors_of_iff :
    (s : List ℕ) (es : List AppliedEdit)
    → (survivors_of s es ≡ []) ↔ All (λ (e : AppliedEdit). text_eq s e.original ≡ false) es
unfolding survivors_of
survivors_of_iff s [] = ground arith
survivors_of_iff s (e ∷ es) = ground (arith, survivors_of_iff s es)

both_empty : (xs ys : List String) → (xs ++ ys ≡ []) ↔ ((xs ≡ []) × (ys ≡ []))
both_empty [] ys = ground arith
both_empty (x ∷ xs) ys = ground arith

survivors-NoneSurvives :
    (ss : List (List ℕ)) (es : List AppliedEdit) → (survivors ss es ≡ []) ↔ NoneSurvives ss es
unfolding survivors
survivors-NoneSurvives [] es = ground arith
survivors-NoneSurvives (s ∷ ss) es = ground (
  arith,
  both_empty (survivors_of s es) (survivors ss es),
  survivors_of_iff s es,
  survivors-NoneSurvives ss es,
)

none_survive_nothing : (ss : List (List ℕ)) → NoneSurvives ss []
none_survive_nothing [] = tt
none_survive_nothing (s ∷ ss) = (tt, none_survive_nothing ss)

failures_of_iff :
    (body : Node) (es : List AppliedEdit)
    → (failures_of body es ≡ []) ↔ (InPlace body es × NoneSurvives (walk_strings body) es)
unfolding failures_of
failures_of_iff body es =
    ground (arith, misplaced-InPlace body es, survivors-NoneSurvives (walk_strings body) es)

-- For bytes that decode to a body, the check finds no failure exactly when every edit's replacement
-- stands at its path and no text of the body, keys included, is the original of an edit.
pub verify_dispatch-InPlace :
    (loads : List ℕ → Option Node) (bytes : List ℕ) (body : Node) (es : List AppliedEdit)
    → loads bytes ≡ some body
    → (verify_dispatch loads bytes es ≡ [])
      ↔ (InPlace body es × NoneSurvives (walk_strings body) es)
unfolding verify_dispatch
verify_dispatch-InPlace loads bytes body [] e =
    (λ h. (tt, none_survive_nothing (walk_strings body)), λ h. refl)
verify_dispatch-InPlace loads bytes body (x ∷ es) e =
    rw (verify_dispatch, e) (failures_of_iff body (x ∷ es))

-- Two edits at one path, where the second replaced what the first had put there: they do not both
-- stand in a body in which the second one's original is gone.
replaced_twice :
    (body : Node) (d e : AppliedEdit) (s : List ℕ)
    → get body d.span_path ≡ some (text s)
    → e.original ≡ d.replacement
    → InPlace body (d ∷ e ∷ [])
    → NoneSurvives (walk_strings body) (d ∷ e ∷ [])
    → ⊥
unfolding holds_replacement
replaced_twice body d e s found again (first, _) gone =
    let (_, (lost, _)) =
      All-pick (λ t. All (λ (x : AppliedEdit). text_eq t x.original ≡ false) (d ∷ e ∷ [])) s
        (walk_strings body) gone (get-walk_strings body d.span_path s found) in
    let stands : text_eq s d.replacement ≡ true = rw (holds_replacement, found) at first in
    false≢true (sym lost ∙ ap (text_eq s) again ∙ stands)

module _ (py_str : Node → List ℕ) where
  -- What the loop does with a finding that is acted on, where a text stands at its path.
  apply_one-edited :
      (f : Finding) (d : Decision) (s : List ℕ) (r : RedactionResult)
      → passes d.action ≡ false
      → get r.payload f.span_path ≡ some (text s)
      → (changed : Node) × (apply_one py_str f d r ≡ edited py_str f d.action (text s) changed r)
        × (get changed f.span_path ≡ some (text (replacement_of (applied_as d.action) s)))
  unfolding apply_one
  apply_one-edited f d s r acts found =
      let (changed, set) =
        set_-get r.payload (text s) (text (replacement_of (applied_as d.action) s)) f.span_path
          found in
      (changed, rw (apply_one, acts, found, set) refl, get-set_ r.payload _ changed f.span_path set)

  -- Two findings on one span, both acted on: whatever the actions, the bytes that `apply` leads to
  -- fail the check, since the second edit's original is the first one's replacement.
  pub apply-twice :
      (loads : List ℕ → Option Node) (bytes : List ℕ) (payload : Node) (f g : Finding)
      (d e : Decision) (s : List ℕ)
      → passes d.action ≡ false
      → passes e.action ≡ false
      → f.span_path ≡ g.span_path
      → get payload f.span_path ≡ some (text s)
      → loads bytes ≡ some (apply py_str enforce payload ((f, d) ∷ (g, e) ∷ [])).payload
      → verify_dispatch loads bytes (apply py_str enforce payload ((f, d) ∷ (g, e) ∷ [])).edits ≢ []
  unfolding apply apply_all
  apply-twice loads bytes payload f g d e s acts acts' same found decodes =
      let start : RedactionResult = record {
        payload = payload;
        edits = [];
        degrade_reasons = [];
        misses = [];
      } in
      let (m, one, at_one) = apply_one-edited f d s start acts found in
      let r1 = replacement_of (applied_as d.action) s in
      let (m', two, at_two) =
        apply_one-edited g e r1 (edited py_str f d.action (text s) m start) acts'
          (subst (λ p. get m p ≡ some (text r1)) same at_one) in
      let r2 = replacement_of (applied_as e.action) r1 in
      let both : apply_all py_str ((f, d) ∷ (g, e) ∷ []) start
          ≡ edited py_str g e.action (text r1) m' (edited py_str f d.action (text s) m start) =
        ap (apply_one py_str g e) one ∙ two in
      λ clean.
        let (stand, gone) =
          (verify_dispatch-InPlace loads bytes m' _
              (subst (λ (r : RedactionResult). loads bytes ≡ some r.payload) both decodes)).0
            (subst (λ (r : RedactionResult). verify_dispatch loads bytes r.edits ≡ []) both
              clean) in
        replaced_twice m' _ _ r2 (subst (λ p. get m' p ≡ some (text r2)) (sym same) at_two) refl
          stand gone
