-- ===== src/Policy/Attribution.antt =====
-- Which rule a decision of Control-DB/zerotrace/policy/engine.py names.
use mathlib.Core.Path.{subst, subst₂}
use zero_trace.Prelude.{
  ℕ, String, Bool, true, if_both, refl, sym, false, ◌≡◌, ◌∙◌, ◌≢◌, Option, none, some, List, arith,
  contains,
}
use zero_trace.Policy.{Action, Leg, Clearance, Rule, Policy, Actor, Finding, RuleScope}
use zero_trace.Policy.Matching.{last_match}
use zero_trace.Policy.Decide.{
  decide, start, org_found, org_step, settle, clamp_bu, bu_found, bu_step, exception_step, after_bu,
  Progress,
}

abbrev Hit : Type 0
Hit = Option (ℕ × Rule)

abbrev index_of : Hit → Option ℕ
index_of none = none
index_of (some (i, r)) = some i

-- What the scope of a decision says of its rule index.
abbrev pub Names : Bool → Hit → Hit → RuleScope → Option ℕ → Type 0
Names excepted org_hit bu_hit RuleScope.default i = (i ≡ none) × (org_hit ≡ none)
Names excepted org_hit bu_hit RuleScope.org i = (i ≡ index_of org_hit) × (org_hit ≢ none)
Names excepted org_hit bu_hit RuleScope.bu i = (i ≡ index_of bu_hit) × (bu_hit ≢ none)
Names excepted org_hit bu_hit RuleScope.exception i = excepted ≡ true

module _ (excepted : Bool) (org_hit bu_hit : Hit) where
  NamesIn : Progress → Type 0
  NamesIn p = Names excepted org_hit bu_hit p.rule_scope p.rule_index

  NamesIn-same :
      (p q : Progress)
      → NamesIn q
      → p.rule_scope ≡ q.rule_scope
      → p.rule_index ≡ q.rule_index
      → NamesIn p
  unfolding NamesIn
  NamesIn-same p q h es ei = subst₂ (Names excepted org_hit bu_hit) (sym es) (sym ei) h

  NamesIn-bu :
      (i : ℕ) (r : Rule) (p : Progress)
      → bu_hit ≡ some (i, r)
      → p.rule_scope ≡ RuleScope.bu
      → p.rule_index ≡ some i
      → NamesIn p
  unfolding NamesIn
  NamesIn-bu i r p e es ei =
      subst₂ (Names excepted org_hit bu_hit) (sym es) (sym ei) (ground arith, ground arith)

  NamesIn-exception :
      (p : Progress) → excepted ≡ true → p.rule_scope ≡ RuleScope.exception → NamesIn p
  unfolding NamesIn
  NamesIn-exception p e es = subst (λ s. Names excepted org_hit bu_hit s p.rule_index) (sym es) e

  settle-Names :
      (weaker decided : Bool) (i : ℕ) (r : Rule) (was_cleared : Bool) (a : Action) (p : Progress)
      → bu_hit ≡ some (i, r)
      → NamesIn p
      → NamesIn (settle weaker decided i r was_cleared a p)
  unfolding settle
  settle-Names true decided i r was_cleared a p e h = NamesIn-same _ p h refl refl
  settle-Names false true i r was_cleared a p e h = NamesIn-bu i r _ e refl refl
  settle-Names false false i r was_cleared a p e h = NamesIn-same _ p h refl refl

  clamp_bu-Names :
      (i : ℕ) (r : Rule) (was_cleared : Bool) (a : Action) (p : Progress)
      → bu_hit ≡ some (i, r)
      → NamesIn p
      → NamesIn (clamp_bu i r was_cleared a p)
  unfolding clamp_bu
  clamp_bu-Names i r was_cleared a p e h = settle-Names _ _ i r was_cleared a p e h

  bu_found-Names :
      (base : Action) (i : ℕ) (r : Rule) (c : Option Clearance) (p : Progress)
      → bu_hit ≡ some (i, r)
      → NamesIn p
      → NamesIn (bu_found base i r c p)
  unfolding bu_found
  bu_found-Names base i r none p e h =
      clamp_bu-Names i r false r.action _ e (NamesIn-same _ p h refl refl)
  bu_found-Names base i r (some b) p e h =
      clamp_bu-Names i r true base _ e (NamesIn-same _ p h refl refl)

  exception_step-Names :
      (base : Action) (finding : Finding) (exceptions : List String) (p : Progress)
      → excepted ≡ contains finding.entity_class exceptions
      → NamesIn p
      → NamesIn (exception_step base finding exceptions p)
  unfolding exception_step
  exception_step-Names base finding exceptions p e h =
      if_both NamesIn (contains finding.entity_class exceptions) _ _
        (λ listed. NamesIn-exception _ (e ∙ listed) refl) (λ _. NamesIn-same _ p h refl refl)

bu_step-Names :
    (excepted : Bool) (org_hit bu_hit : Hit) (base : Action) (cleared : Rule → Option Clearance)
    (p : Progress)
    → NamesIn excepted org_hit bu_hit p
    → NamesIn excepted org_hit bu_hit (bu_step base bu_hit cleared p)
unfolding bu_step
bu_step-Names excepted org_hit none base cleared p h =
    NamesIn-same excepted org_hit none _ p h refl refl
bu_step-Names excepted org_hit (some (i, r)) base cleared p h =
    bu_found-Names excepted org_hit (some (i, r)) base i r (cleared r) p refl h

org_found-Names :
    (base : Action) (i : ℕ) (r : Rule) (c : Option Clearance) (p : Progress) (excepted : Bool)
    (bu_hit : Hit)
    → NamesIn excepted (some (i, r)) bu_hit (org_found base i r c p)
unfolding org_found NamesIn
org_found-Names base i r none p excepted bu_hit = ground arith
org_found-Names base i r (some b) p excepted bu_hit = ground arith

org_step-Names :
    (base : Action) (org_hit bu_hit : Hit) (cleared : Rule → Option Clearance) (org : Policy)
    (actor : Actor) (excepted : Bool)
    → NamesIn excepted org_hit bu_hit (org_step base org_hit cleared (start org actor))
unfolding org_step start NamesIn
org_step-Names base none bu_hit cleared org actor excepted = (refl, refl)
org_step-Names base (some (i, r)) bu_hit cleared org actor excepted =
    org_found-Names base i r (cleared r) _ excepted bu_hit

after_bu-Names :
    (org : Policy) (actor : Actor) (finding : Finding) (leg : Leg) (bu : Option Policy)
    (destination : Option String) (exceptions : List String) (excepted : Bool)
    → NamesIn excepted
        (last_match finding leg destination (some org))
        (last_match finding leg destination bu)
        (after_bu org actor finding leg bu destination exceptions)
unfolding last_match
after_bu-Names org actor finding leg none destination exceptions excepted =
    org_step-Names _ _ (last_match finding leg destination none) _ org actor excepted
after_bu-Names org actor finding leg (some b) destination exceptions excepted =
    bu_step-Names excepted _ _ _ _ _ (org_step-Names _ _ _ _ org actor excepted)

-- With scope `org` or `bu`, a decision names the last rule of that policy that matches the finding;
-- with scope `default` no org rule matches and no rule is named; with scope `exception` the finding's
-- class is among the approved exceptions.
pub decide-Names :
    (org : Policy) (actor : Actor) (finding : Finding) (leg : Leg) (bu : Option Policy)
    (destination : Option String) (exceptions : List String)
    → let d = decide org actor finding leg bu destination exceptions in
      Names
        (contains finding.entity_class exceptions)
        (last_match finding leg destination (some org))
        (last_match finding leg destination bu)
        d.rule_scope
        d.rule_index
unfolding decide NamesIn
decide-Names org actor finding leg bu destination exceptions =
    exception_step-Names _ _ _ _ finding exceptions _ refl
      (after_bu-Names org actor finding leg bu destination exceptions _)
