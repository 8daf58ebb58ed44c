-- ===== src/Policy/Publish.antt =====
-- Publish-time validation of Control-DB/zerotrace/policy/engine.py: a business unit may only raise.
use zero_trace.Prelude.{
  ℕ, ◌+◌, Bool, true, false, not, ◌&&◌, ◌||◌, Option, none, some, List, [], ◌∷◌, is_nonempty,
  if◌then◌else◌,
}
use zero_trace.Policy.{Leg, Match, Rule, Policy}
use zero_trace.Policy.Lattice.{is_weaker}
use zero_trace.Policy.Matching.{differs, any_in}

-- `a is not None and b is not None and a != b`
abbrev pub directions_differ : Option Leg → Option Leg → Bool
directions_differ none b = false
directions_differ (some a) none = false
directions_differ (some a) (some b) = differs (some a) b

-- `any_in xs ys` is the truth value of `set(xs) & set(ys)`.
unfoldable pub matches_overlap : Match → Match → Bool
matches_overlap a b =
    if directions_differ a.direction b.direction
    then false
    else if is_nonempty a.class_ && (is_nonempty b.class_ && not (any_in a.class_ b.class_))
    then false
    else if is_nonempty a.destination
        && (is_nonempty b.destination && not (any_in a.destination b.destination))
    then false
    else true

-- BusinessUnitWeakensOrgRule carries the index of the BU rule; the org rule's is in its message.
pub data Published : Type 0 where
  accepted : Published
  weakens_org_rule : ℕ → ℕ → Published

-- The inner loop, over the org's rules.
unfoldable pub check_rule : ℕ → Rule → ℕ → List Rule → Published
unfolding matches_overlap is_weaker
check_rule bu_index bu_rule i [] = accepted
check_rule bu_index bu_rule i (o ∷ os) =
    if matches_overlap bu_rule.match o.match && is_weaker bu_rule.action o.action
    then weakens_org_rule bu_index i
    else check_rule bu_index bu_rule (i + 1) os

-- A rule with clearance blocks is skipped.
abbrev pub has_clearance : Rule → Bool
has_clearance r = is_nonempty r.unless || is_nonempty r.except_

-- The outer loop, over the BU's rules; a raise ends it.
unfoldable pub check_rules : List Rule → ℕ → List Rule → Published
unfolding check_rule
check_rules org_rules i [] = accepted
check_rules org_rules i (r ∷ rs) =
    let rest = check_rules org_rules (i + 1) rs in
    if has_clearance r then rest else elim (check_rule i r 0 org_rules) [
      | accepted ↦ rest
      | weakens_org_rule b o ↦ weakens_org_rule b o
    ]

unfoldable pub check_bu_may_only_raise : Policy → Policy → Published
unfolding check_rules
check_bu_may_only_raise org bu = check_rules org.rules 0 bu.rules
