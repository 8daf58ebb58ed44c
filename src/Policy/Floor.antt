-- ===== src/Policy/Floor.antt =====
-- What `decide` of Control-DB/zerotrace/policy/engine.py resolves to, and the floor that an org
-- policy puts under its business units.
use zero_trace.Prelude.{String, ◌≡◌, ◌≤◌, Option, none, some, List, arith, contains, if◌then◌else◌}
use zero_trace.Policy.{Action, Leg, Rule, Policy, Actor, Finding}
use zero_trace.Policy.Lattice.{rank, stronger}
use zero_trace.Policy.Matching.{last_match, first_applying, clearance_blocks_for}
use zero_trace.Policy.Decide.{decide, base_action}

-- The action of a matching rule, or the base if a clearance block covers the actor.
abbrev pub cleared_action : Action → Leg → Actor → Option String → Rule → Action
cleared_action base leg actor destination rule =
    elim (first_applying (clearance_blocks_for rule leg) actor destination) [
      | none ↦ rule.action
      | some _ ↦ base
    ]

-- The resolution order in one expression: an exception, else the stronger of the two last matches.
abbrev pub org_action : Policy → Actor → Finding → Leg → Option String → Action
org_action org actor finding leg destination =
    elim (last_match finding leg destination (some org)) [
      | none ↦ base_action org actor
      | some (i, r) ↦ cleared_action (base_action org actor) leg actor destination r
    ]

abbrev pub with_bu : Policy → Actor → Finding → Leg → Option Policy → Option String → Action
with_bu org actor finding leg bu destination = elim (last_match finding leg destination bu) [
  | none ↦ org_action org actor finding leg destination
  | some (i, r) ↦
      stronger (org_action org actor finding leg destination)
        (cleared_action (base_action org actor) leg actor destination r)
]

action_decide_alone :
    (org : Policy) (actor : Actor) (finding : Finding) (leg : Leg) (destination : Option String)
    (exceptions : List String)
    → (decide org actor finding leg none destination exceptions).action ≡ (
        if contains finding.entity_class exceptions
        then base_action org actor
        else org_action org actor finding leg destination)
unfolding decide last_match
action_decide_alone org actor finding leg destination exceptions = ground arith

module _ (org : Policy) (actor : Actor) (finding : Finding) (leg : Leg) (bu : Option Policy)
    (destination : Option String) (exceptions : List String) where
  -- The action of a decision is the base action if an approved exception names the class, else the
  -- stronger of the org's and the business unit's last matching rules, each cleared to the base.
  pub action-decide : (decide org actor finding leg bu destination exceptions).action ≡ (
      if contains finding.entity_class exceptions
      then base_action org actor
      else with_bu org actor finding leg bu destination)
  unfolding decide last_match
  action-decide = ground arith

  -- A business unit never lowers the action that the org policy alone
  -- would give.
  pub decide-floor :
      rank (decide org actor finding leg none destination exceptions).action
      ≤ rank (decide org actor finding leg bu destination exceptions).action
  unfolding last_match
  decide-floor =
      ground
        (arith, action-decide, action_decide_alone org actor finding leg destination exceptions)
