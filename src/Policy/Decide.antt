-- ===== src/Policy/Decide.antt =====
-- `decide`, `decide_all` and `overall_action` of Control-DB/zerotrace/policy/engine.py.
use zero_trace.Prelude.{
  ℕ, String, Bool, true, false, not, ◌||◌, Option, none, some, List, [], ◌∷◌, ◌++◌, map, ltb, ◌==◌,
  contains, if◌then◌else◌,
}
use zero_trace.Policy.{
  Action, Leg, Clearance, Rule, Policy, Actor, is_unregistered, Finding, RuleScope,
}
use zero_trace.Policy.Lattice.{rank, stronger, strongest}
use zero_trace.Policy.Matching.{clearance_blocks_for, first_applying, last_match}

-- The trace lines, with what each of them quotes.
pub data TraceLine : Type 0 where
  start_unregistered start_default : Action → TraceLine
  org_matches : ℕ → Action → TraceLine
  org_cleared : ℕ → Clearance → Action → TraceLine
  no_org_rule : TraceLine
  bu_matches : ℕ → Action → TraceLine
  bu_cleared : ℕ → Clearance → Action → TraceLine
  bu_clamped : Action → Action → Action → TraceLine
  no_bu_rule : TraceLine
  exception_approved : String → Action → TraceLine
  no_exception : TraceLine
  escalates : Bool → TraceLine

pub record Decision : Type 0 where
  pub action : Action
  pub org_policy_version : ℕ
  pub bu_policy_version : Option ℕ
  pub rule_index : Option ℕ
  pub rule_scope : RuleScope
  pub exception_applied : Bool
  pub escalate : Bool
  pub reason : Option String
  pub trace : List TraceLine

-- The local variables of `decide` between its steps.
pub record Progress : Type 0 where
  pub action : Action
  pub rule_index : Option ℕ
  pub rule_scope : RuleScope
  pub reason : Option String
  pub escalate : Bool
  pub exception_applied : Bool
  pub trace : List TraceLine

abbrev pub base_action : Policy → Actor → Action
unfolding is_unregistered
base_action org actor = if is_unregistered actor then org.unregistered_workload else org.default

-- Step 1.
unfoldable pub start : Policy → Actor → Progress
unfolding is_unregistered
start org actor =
    let base = base_action org actor in
    record {
      action = base;
      rule_index = none;
      rule_scope = RuleScope.default;
      reason = none;
      escalate = false;
      exception_applied = false;
      trace = (if is_unregistered actor then start_unregistered base else start_default base) ∷ [];
    }

-- Steps 2 and 4a for a rule that matches, and the first of its blocks that applies, if one does.
unfoldable pub org_found : Action → ℕ → Rule → Option Clearance → Progress → Progress
org_found base i rule (some b) p = record p {
  action = base;
  rule_index = some i;
  rule_scope = RuleScope.org;
  reason = rule.reason;
  exception_applied = true;
  trace = p.trace ++ (org_matches i rule.action ∷ org_cleared i b base ∷ []);
}
org_found base i rule none p = record p {
  action = rule.action;
  rule_index = some i;
  rule_scope = RuleScope.org;
  reason = rule.reason;
  escalate = p.escalate || rule.escalate;
  trace = p.trace ++ (org_matches i rule.action ∷ []);
}

unfoldable pub org_step :
    Action → Option (ℕ × Rule) → (Rule → Option Clearance) → Progress → Progress
unfolding org_found
org_step base none cleared p = record p { trace = p.trace ++ no_org_rule ∷ [] }
org_step base (some (i, rule)) cleared p = org_found base i rule (cleared rule) p

-- `rank(bu_action) > rank(action) or rule_index is None`
abbrev pub bu_decided : Action → Progress → Bool
bu_decided bu_action p =
    ltb (rank p.action) (rank bu_action) || elim p.rule_index [ none ↦ true | some _ ↦ false ]

-- The if, elif and else after the clamp, on their two tests: the BU action is weaker than the org's,
-- and the BU rule decided.
unfoldable pub settle : Bool → Bool → ℕ → Rule → Bool → Action → Progress → Progress
settle true decided i rule was_cleared bu_action p =
    let clamped = stronger p.action bu_action in
    record p { action = clamped; trace = p.trace ++ bu_clamped bu_action p.action clamped ∷ [] }
settle false true i rule was_cleared bu_action p = record p {
  action = stronger p.action bu_action;
  rule_index = some i;
  rule_scope = RuleScope.bu;
  reason = rule.reason;
  escalate = if was_cleared then p.escalate else p.escalate || rule.escalate;
}
settle false false i rule was_cleared bu_action p = record p {
  action = stronger p.action bu_action;
}

-- The clamp of step 3, for a BU action that a clearance may have lowered already.
unfoldable pub clamp_bu : ℕ → Rule → Bool → Action → Progress → Progress
unfolding settle
clamp_bu i rule was_cleared bu_action p =
    settle (not (rank (stronger p.action bu_action) == rank bu_action)) (bu_decided bu_action p) i
      rule was_cleared bu_action p

-- Step 3 for a rule of the BU policy, with step 4 on it.
unfoldable pub bu_found : Action → ℕ → Rule → Option Clearance → Progress → Progress
unfolding clamp_bu
bu_found base i rule (some b) p = clamp_bu i rule true base (record p {
  exception_applied = true;
  trace = p.trace ++ (bu_matches i rule.action ∷ bu_cleared i b base ∷ []);
})
bu_found base i rule none p =
    clamp_bu i rule false rule.action
      (record p { trace = p.trace ++ (bu_matches i rule.action ∷ []) })

unfoldable pub bu_step :
    Action → Option (ℕ × Rule) → (Rule → Option Clearance) → Progress → Progress
unfolding bu_found
bu_step base none cleared p = record p { trace = p.trace ++ no_bu_rule ∷ [] }
bu_step base (some (i, rule)) cleared p = bu_found base i rule (cleared rule) p

-- Step 5.
unfoldable pub exception_step : Action → Finding → List String → Progress → Progress
exception_step base finding exceptions p =
    if contains finding.entity_class exceptions
    then record p {
      action = base;
      rule_scope = RuleScope.exception;
      exception_applied = true;
      trace = p.trace ++ exception_approved finding.entity_class base ∷ [];
    }
    else record p { trace = p.trace ++ no_exception ∷ [] }

module _ (org : Policy) (actor : Actor) (finding : Finding) (leg : Leg) (bu : Option Policy)
    (destination : Option String) (exceptions : List String) where
  abbrev pub cleared_by : Rule → Option Clearance
  cleared_by rule = first_applying (clearance_blocks_for rule leg) actor destination

  -- Steps 1 and 2.
  abbrev pub after_org : Progress
  after_org =
      org_step (base_action org actor) (last_match finding leg destination (some org)) cleared_by
        (start org actor)

  -- `if bu is not None:` step 3.
  abbrev pub after_bu : Progress
  after_bu = elim bu [
    | none ↦ after_org
    | some b ↦
        bu_step (base_action org actor) (last_match finding leg destination (some b)) cleared_by
          after_org
  ]

  unfoldable pub decide : Decision
  unfolding start org_step bu_step exception_step
  decide =
      let p = exception_step (base_action org actor) finding exceptions after_bu in
      record {
        action = p.action;
        org_policy_version = org.version;
        bu_policy_version = elim bu [ none ↦ none | some b ↦ some b.version ];
        rule_index = p.rule_index;
        rule_scope = p.rule_scope;
        exception_applied = p.exception_applied;
        escalate = p.escalate;
        reason = p.reason;
        trace = p.trace ++ escalates p.escalate ∷ [];
      }

unfoldable pub decide_all :
    Policy
    → Actor
    → List Finding
    → Leg
    → Option Policy
    → Option String
    → List String
    → List (Finding × Decision)
decide_all org actor findings leg bu destination exceptions =
    map (λ f. (f, decide org actor f leg bu destination exceptions)) findings

abbrev pub action_of : Finding × Decision → Action
action_of (f, d) = d.action

unfoldable pub overall_action : List (Finding × Decision) → Action → Action
unfolding strongest
overall_action [] default = default
overall_action (p ∷ ps) default = strongest (action_of p) (map action_of ps)
