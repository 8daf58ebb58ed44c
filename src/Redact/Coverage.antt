-- ===== src/Redact/Coverage.antt =====
-- What becomes of each finding in `plan_redaction` of gateway/redact.py.
use mathlib.Core.Bool.{false≢true}
use mathlib.Core.Path.{subst}
use mathlib.Core.List.{append-nil, append_assoc}
use zero_trace.Prelude.{
  ℕ, String, ◌≡◌, refl, sym, ap, ◌∙◌, ◌⊎◌, inl, inr, true, false, some, List, [], ◌∷◌, ◌++◌, arith,
  slice, Any, Any-left, Any-right, All, Bool-cases, Option-cases,
}
use zero_trace.Spans.{Span, is_redactable}
use zero_trace.Spans.Tree.{SpanTree, by_path}
use zero_trace.Redact.Vault.{TextOps}
use zero_trace.Redact.Plan.{
  Action, Finding, PlannedRedaction, RedactionPlan, Planned, planned, unknown_span,
  credential_never_tokenized, read_only, skipped, is_quiet, replacement_for, add_redaction,
  plan_one, plan_all, plan_redaction,
}

-- A redaction that stands where the finding does, with the finding's text as its original.
abbrev pub Covers : SpanTree → Finding → PlannedRedaction → Type 0
Covers tree f r =
    (span : Span) × (by_path tree f.span_path ≡ some span)
    × (r.span_path ≡ f.span_path)
    × (r.start ≡ f.start)
    × (r.end ≡ f.end)
    × (r.original ≡ slice span.text f.start f.end)

-- A finding is advisory, or its span is read-only and it is reported, or a redaction covers it.
abbrev pub Handled : SpanTree → RedactionPlan → Finding → Type 0
Handled tree p f =
    (f.advisory_only ≡ true)
    ⊎ (Any (λ s. s ≡ (f.span_path, f.entity_class)) p.skipped_read_only)
    ⊎ Any (Covers tree f) p.redactions

abbrev Reported : List (String × String) → Finding → Type 0
Reported rs f = Any (λ s. s ≡ (f.span_path, f.entity_class)) rs

skipped-Reported :
    (tree : SpanTree) (fs : List Finding) (all : List (String × String))
    → ((f : Finding) → Reported (skipped tree fs) f → Reported all f)
    → All (λ f. read_only (by_path tree f.span_path) ≡ true → Reported all f) fs
unfolding skipped
skipped-Reported tree [] all keeps = tt
skipped-Reported tree (f ∷ fs) all keeps =
    elim (Bool-cases (read_only (by_path tree f.span_path))) [
      | inl seen ↦ (
        λ _. keeps f (rw seen (inl refl)),
        skipped-Reported tree fs all (λ g r. keeps g (rw seen (inr r))),
      )
      | inr other ↦ (
        λ seen. absurd (false≢true (sym other ∙ seen)),
        skipped-Reported tree fs all (λ g r. keeps g (rw other r)),
      )
    ]

Planned-cases :
    (r : Planned)
    → ((p : RedactionPlan) × (r ≡ planned p))
      ⊎ (((x : String) × (r ≡ unknown_span x))
          ⊎ ((x : String) × (r ≡ credential_never_tokenized x)))
Planned-cases (planned p) = inl (p, refl)
Planned-cases (unknown_span x) = inr (inl (x, refl))
Planned-cases (credential_never_tokenized x) = inr (inr (x, refl))

module _ (ops : TextOps) (tenant_key scope_key : List ℕ) (tree : SpanTree) where
  -- What one iteration does when it goes on.
  pub data OneStep (f : Finding) (plan next : RedactionPlan) : Type 0 where
    advisory : f.advisory_only ≡ true → next ≡ plan → OneStep f plan next
    reported : read_only (by_path tree f.span_path) ≡ true → next ≡ plan → OneStep f plan next
    covered :
        (span : Span) (replacement : List ℕ)
        → by_path tree f.span_path ≡ some span
        → next
          ≡ add_redaction ops tenant_key scope_key tree f
              (slice span.text f.start f.end)
              replacement
              plan
        → OneStep f plan next

  plan_one-OneStep :
      (f : Finding) (plan next : RedactionPlan)
      → plan_one ops tenant_key scope_key tree f plan ≡ planned next
      → OneStep f plan next
  unfolding plan_one
  plan_one-OneStep f plan next h = elim (Bool-cases f.advisory_only) [
    | inl quiet ↦ advisory quiet (ground arith)
    | inr loud ↦ elim (Option-cases (by_path tree f.span_path)) [
      | inl missing ↦ absurd (ground arith)
      | inr (span, found) ↦ elim (Bool-cases (is_redactable span.origin)) [
        | inl open_ ↦
            elim (Option-cases (
              replacement_for ops tenant_key scope_key tree plan.action f.entity_class
                (slice span.text f.start f.end))) [
                  | inl never ↦ absurd (ground arith)
                  | inr (replacement, made) ↦ covered span replacement found (ground arith)
                ]
        | inr closed ↦ reported (rw (found, closed)) (ground arith)
      ]
    ]
  ]

  -- The loop only adds redactions, and does not change the report.
  record Grows (plan next : RedactionPlan) : Type 0 where
    report : next.skipped_read_only ≡ plan.skipped_read_only
    added : List PlannedRedaction
    redactions : next.redactions ≡ plan.redactions ++ added

  Grows-refl : (plan next : RedactionPlan) → next ≡ plan → Grows plan next
  Grows-refl plan next e = record {
    report = ap (λ (p : RedactionPlan). p.skipped_read_only) e;
    added = [];
    redactions = ap (λ (p : RedactionPlan). p.redactions) e ∙ sym (append-nil plan.redactions);
  }

  Grows-trans : (a b c : RedactionPlan) → Grows a b → Grows b c → Grows a c
  Grows-trans a b c g k = record {
    report = k.report ∙ g.report;
    added = g.added ++ k.added;
    redactions =
        k.redactions
        ∙ ap (λ rs. rs ++ k.added) g.redactions
        ∙ append_assoc a.redactions g.added k.added;
  }

  Grows-Any :
      (P : PlannedRedaction → Type 0) (plan next : RedactionPlan)
      → Grows plan next
      → Any P plan.redactions
      → Any P next.redactions
  Grows-Any P plan next g h = rw g.redactions (Any-left P plan.redactions g.added h)

  abbrev Placed : RedactionPlan → Finding → Type 0
  Placed p f =
      (f.advisory_only ≡ true)
      ⊎ (read_only (by_path tree f.span_path) ≡ true)
      ⊎ Any (Covers tree f) p.redactions

  OneStep-Grows : (f : Finding) (plan next : RedactionPlan) → OneStep f plan next → Grows plan next
  OneStep-Grows f plan next (advisory quiet e) = Grows-refl plan next e
  OneStep-Grows f plan next (reported closed e) = Grows-refl plan next e
  OneStep-Grows f plan next (covered span replacement found e) = record {
    report = ap (λ (p : RedactionPlan). p.skipped_read_only) e;
    added = _;
    redactions = ap (λ (p : RedactionPlan). p.redactions) e;
  }

  OneStep-Placed : (f : Finding) (plan next : RedactionPlan) → OneStep f plan next → Placed next f
  OneStep-Placed f plan next (advisory quiet e) = inl quiet
  OneStep-Placed f plan next (reported closed e) = inr (inl closed)
  OneStep-Placed f plan next (covered span replacement found e) = inr (
      inr (
        rw e (
          Any-right (Covers tree f) plan.redactions _ (inl (span, found, refl, refl, refl, refl)))))

  Placed-Grows : (a b : RedactionPlan) → Grows a b → (f : Finding) → Placed a f → Placed b f
  Placed-Grows a b g f (inl quiet) = inl quiet
  Placed-Grows a b g f (inr (inl closed)) = inr (inl closed)
  Placed-Grows a b g f (inr (inr covers)) = inr (inr (Grows-Any (Covers tree f) a b g covers))

  plan_all-Placed :
      (fs : List Finding) (plan p : RedactionPlan)
      → plan_all ops tenant_key scope_key tree fs plan ≡ planned p
      → Grows plan p × All (Placed p) fs
  unfolding plan_all
  plan_all-Placed [] plan p h = (Grows-refl plan p (ground arith), tt)
  plan_all-Placed (f ∷ fs) plan p h =
      elim (Planned-cases (plan_one ops tenant_key scope_key tree f plan)) [
        | inl (next, e) ↦
            let step = plan_one-OneStep f plan next e in
            let (grown, placed) = plan_all-Placed fs next p (ground arith) in
            (
              Grows-trans plan next p (OneStep-Grows f plan next step) grown,
              (Placed-Grows next p grown f (OneStep-Placed f plan next step), placed),
            )
        | inr stopped ↦ absurd (ground arith)
      ]

  Placed-Handled :
      (p : RedactionPlan) (fs : List Finding)
      → All (λ f. read_only (by_path tree f.span_path) ≡ true → Reported p.skipped_read_only f) fs
      → All (Placed p) fs
      → All (Handled tree p) fs
  Placed-Handled p [] r h = tt
  Placed-Handled p (f ∷ fs) r h = (handled h.0, Placed-Handled p fs r.1 h.1)
    where
      handled : Placed p f → Handled tree p f
      handled (inl quiet) = inl quiet
      handled (inr (inl closed)) = inr (inl (r.0 closed))
      handled (inr (inr covers)) = inr (inr covers)

  redacting :
      (findings : List Finding) (action : Action) (p : RedactionPlan)
      → plan_redaction ops tenant_key scope_key tree findings action ≡ planned p
      → is_quiet action ≡ false
      → plan_all ops tenant_key scope_key tree findings (record {
        action = action;
        redactions = [];
        degraded_formats = [];
        skipped_read_only = skipped tree findings;
      })
        ≡ planned p
  unfolding plan_redaction
  redacting findings action p h loud = ground arith

  -- A plan under mask or tokenize leaves no finding out: each is advisory, or stands in a read-only
  -- span and is reported, or has a redaction of its text at its place.
  pub plan_redaction-Handled :
      (findings : List Finding) (action : Action) (p : RedactionPlan)
      → plan_redaction ops tenant_key scope_key tree findings action ≡ planned p
      → is_quiet action ≡ false
      → All (Handled tree p) findings
  plan_redaction-Handled findings action p h loud =
      let (grown, placed) = plan_all-Placed findings _ p (redacting findings action p h loud) in
      Placed-Handled p findings
        (skipped-Reported tree findings p.skipped_read_only
          (λ f r. subst (λ rs. Reported rs f) (sym grown.report) r))
        placed
