-- ===== src/Policy/Matching.antt =====
-- The matching part of Control-DB/zerotrace/policy/engine.py: which rules are about a finding, and
-- which clearance blocks cover an actor.
use zero_trace.Prelude.{
  ℕ, ◌+◌, String, Bool, true, false, not, ◌&&◌, ◌||◌, Option, none, some, List, [], ◌∷◌, contains,
  is_nonempty, if◌then◌else◌,
}
use zero_trace.Policy.{Leg, outbound, inbound, Clearance, is_empty, Rule, Policy, Actor, Finding}

abbrev pub leg_eq : Leg → Leg → Bool
leg_eq outbound outbound = true
leg_eq inbound inbound = true
leg_eq _ _ = false

-- `d is not None and d != leg`
abbrev pub differs : Option Leg → Leg → Bool
differs none leg = false
differs (some d) leg = not (leg_eq d leg)

-- `destination is not None and destination in ds`
abbrev pub named : Option String → List String → Bool
named none ds = false
named (some d) ds = contains d ds

unfoldable pub rule_matches : Rule → Finding → Leg → Option String → Bool
rule_matches rule finding leg destination =
    let m = rule.match in
    if differs m.direction leg
    then false
    else if is_nonempty m.class_ && not (contains finding.entity_class m.class_)
    then false
    else if is_nonempty m.destination && not (named destination m.destination)
    then false
    else true

-- `any(g in groups for g in gs)`
abbrev pub any_in : List String → List String → Bool
any_in [] groups = false
any_in (g ∷ gs) groups = contains g groups || any_in gs groups

unfoldable pub clearance_applies : Clearance → Actor → Option String → Bool
unfolding is_empty
clearance_applies b actor destination =
    if is_empty b
    then false
    else if is_nonempty b.actor_group && any_in b.actor_group actor.groups
    then true
    else if is_nonempty b.actor_role && contains actor.role b.actor_role
    then true
    else if is_nonempty b.destination && named destination b.destination
    then true
    else false

abbrev pub clearance_blocks_for : Rule → Leg → List Clearance
clearance_blocks_for rule inbound = rule.unless
clearance_blocks_for rule outbound = rule.except_

-- The loop `for block in blocks: if applies: ...; break`: the first block that applies.
unfoldable pub first_applying : List Clearance → Actor → Option String → Option Clearance
first_applying [] actor destination = none
first_applying (b ∷ bs) actor destination =
    if clearance_applies b actor destination then some b else first_applying bs actor destination

module _ (finding : Finding) (leg : Leg) (destination : Option String) where
  -- The loop of `_last_match` from an index, with the winner so far.
  unfoldable pub scan_rules : List Rule → ℕ → Option (ℕ × Rule) → Option (ℕ × Rule)
  scan_rules [] i winner = winner
  scan_rules (r ∷ rs) i winner =
      scan_rules rs (i + 1) (if rule_matches r finding leg destination then some (i, r) else winner)

  unfoldable pub last_match : Option Policy → Option (ℕ × Rule)
  unfolding scan_rules
  last_match none = none
  last_match (some policy) = scan_rules policy.rules 0 none
