-- ===== src/Policy/Tests.antt =====
-- Runs of the policy engine on a small org policy with a business unit, and its theorems at them.
use zero_trace.Prelude.{
  String, ◌≡◌, ◌≤◌, refl, ◌↔◌, true, false, none, some, List, [], ◌∷◌, contains, if◌then◌else◌,
}
use zero_trace.Policy.{
  Action, allow, mask, block, warn, outbound, Match, Clearance, Rule, Policy, Actor, Finding,
}
use zero_trace.Policy.Lattice.{rank}
use zero_trace.Policy.Matching.{rule_matches, last_match, first_applying, clearance_applies}
use zero_trace.Policy.Decide.{decide, base_action, overall_action, decide_all}
use zero_trace.Policy.Publish.{check_bu_may_only_raise}
use zero_trace.Policy.LastMatch.{WinsAt, last_match_iff}
use zero_trace.Policy.Floor.{with_bu, action-decide, decide-floor}
use zero_trace.Policy.Raise.{Weakens, accepted-Raises, refused-Weakens}
use zero_trace.Policy.Attribution.{Names, decide-Names}

abbrev on_class : String → Match
on_class c = record {
  direction = some outbound;
  class_ = c ∷ [];
  source = [];
  destination = [];
  composite_risk_gte = none;
}

abbrev rule : String → Action → List Clearance → Rule
rule c a blocks = record {
  match = on_class c;
  action = a;
  format_preserving = false;
  escalate = false;
  notify = [];
  except_ = blocks;
  unless = [];
  reason = none;
}

abbrev policy : List Rule → Policy
policy rs = record {
  org = "acme";
  business_unit = none;
  default = allow;
  unregistered_workload = mask;
  rules = rs;
  version = 3;
}

abbrev clinical : Clearance
clinical = record { actor_role = []; actor_group = "clinical" ∷ []; destination = [] }

abbrev org_policy : Policy
org_policy = policy (rule "PAN" warn [] ∷ rule "PAN" mask (clinical ∷ []) ∷ [])

abbrev strict_bu : Policy
strict_bu = policy (rule "PAN" block [] ∷ [])

abbrev lax_bu : Policy
lax_bu = policy (rule "PAN" allow [] ∷ [])

abbrev clerk : Actor
clerk = record { id = "u1"; role = "clerk"; groups = "billing" ∷ []; registered = true }

abbrev nurse : Actor
nurse = record { id = "u2"; role = "nurse"; groups = "clinical" ∷ []; registered = true }

abbrev pan : Finding
pan = record { entity_class = "PAN"; span_path = "messages[0].content" }

clerk_is_masked : (decide org_policy clerk pan outbound none none []).action ≡ mask
unfolding decide last_match rule_matches first_applying clearance_applies
clerk_is_masked = refl

nurse_is_cleared : (decide org_policy nurse pan outbound none none []).action ≡ allow
unfolding decide last_match rule_matches first_applying clearance_applies
nurse_is_cleared = refl

bu_raises : (decide org_policy clerk pan outbound (some strict_bu) none []).action ≡ block
unfolding decide last_match rule_matches first_applying clearance_applies
bu_raises = refl

lax_bu_is_clamped : (decide org_policy clerk pan outbound (some lax_bu) none []).action ≡ mask
unfolding decide last_match rule_matches first_applying clearance_applies
lax_bu_is_clamped = refl

overall_is_strongest :
    overall_action (decide_all org_policy clerk (pan ∷ pan ∷ []) outbound none none []) allow ≡ mask
unfolding overall_action decide_all decide last_match rule_matches first_applying clearance_applies
overall_is_strongest = refl

action-decide_example : (decide org_policy clerk pan outbound (some lax_bu) none []).action ≡ (
    if contains "PAN" []
    then base_action org_policy clerk
    else with_bu org_policy clerk pan outbound (some lax_bu) none)
action-decide_example = action-decide org_policy clerk pan outbound (some lax_bu) none []

decide-floor_example :
    rank (decide org_policy clerk pan outbound none none []).action
    ≤ rank (decide org_policy clerk pan outbound (some lax_bu) none []).action
decide-floor_example = decide-floor org_policy clerk pan outbound (some lax_bu) none []

last_match_iff_example :
    (last_match pan outbound none (some org_policy) ≡ some (1, rule "PAN" mask (clinical ∷ [])))
    ↔ WinsAt pan outbound none org_policy.rules 1 (rule "PAN" mask (clinical ∷ []))
last_match_iff_example =
    last_match_iff pan outbound none org_policy 1 (rule "PAN" mask (clinical ∷ []))

accepted-Raises_example : 3 ≤ 4
unfolding check_bu_may_only_raise rule_matches
accepted-Raises_example =
    accepted-Raises org_policy strict_bu pan outbound none 0 1 (rule "PAN" block [])
      (rule "PAN" mask (clinical ∷ [])) refl refl refl refl refl refl

refused-Weakens_example : Weakens lax_bu.rules org_policy.rules 0 0
unfolding check_bu_may_only_raise
refused-Weakens_example = refused-Weakens org_policy lax_bu 0 0 refl

decide-Names_example :
    let d = decide org_policy clerk pan outbound (some strict_bu) none [] in
    Names false
      (last_match pan outbound none (some org_policy))
      (last_match pan outbound none (some strict_bu))
      d.rule_scope
      d.rule_index
decide-Names_example = decide-Names org_policy clerk pan outbound (some strict_bu) none []
