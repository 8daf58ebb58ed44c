-- ===== src/Policy/LastMatch.antt =====
-- `_last_match` of Control-DB/zerotrace/policy/engine.py against a description of its winner.
use zero_trace.Prelude.{
  ℕ, zero, suc, ◌+◌, ◌≡◌, refl, ◌↔◌, Bool, true, false, Option, none, some, List, [], ◌∷◌, String,
  arith, get_elem?, drop, All, if◌then◌else◌,
}
use zero_trace.Policy.{Rule, Policy, Finding, Leg}
use zero_trace.Policy.Matching.{rule_matches, scan_rules, last_match}

abbrev or_else {ℓ} : {A : Type ℓ} → Option A → Option A → Option A
or_else none w = w
or_else (some a) w = some a

abbrev shift : ℕ → Option (ℕ × Rule) → Option (ℕ × Rule)
shift k none = none
shift k (some (i, r)) = some (k + i, r)

module _ (finding : Finding) (leg : Leg) (destination : Option String) where
  abbrev pub matching : Rule → Bool
  matching r = rule_matches r finding leg destination

  -- Rule `r` stands at `i`, matches, and no later rule matches.
  abbrev pub WinsAt : List Rule → ℕ → Rule → Type 0
  WinsAt rules i r =
      (get_elem? rules i ≡ some r)
      × (matching r ≡ true)
      × All (λ s. matching s ≡ false) (drop (suc i) rules)

  -- The winner as a plain recursion.
  last_from : List Rule → Option (ℕ × Rule)
  last_from [] = none
  last_from (r ∷ rs) = or_else (shift 1 (last_from rs)) (if matching r then some (0, r) else none)

  scan-last_from :
      (rs : List Rule) (i : ℕ) (w : Option (ℕ × Rule))
      → scan_rules finding leg destination rs i w ≡ or_else (shift i (last_from rs)) w
  unfolding scan_rules last_from
  scan-last_from [] i w = refl
  scan-last_from (r ∷ rs) i w =
      ground (arith, scan-last_from rs (i + 1) (if matching r then some (i, r) else w))

  last_from-none : (rs : List Rule) → (last_from rs ≡ none) ↔ All (λ s. matching s ≡ false) rs
  unfolding last_from
  last_from-none [] = (λ _. tt, λ _. refl)
  last_from-none (r ∷ rs) = ground (arith, last_from-none rs)

  last_from-some :
      (rs : List Rule) (i : ℕ) (r : Rule) → (last_from rs ≡ some (i, r)) ↔ WinsAt rs i r
  unfolding last_from
  last_from-some [] i r = ground arith
  last_from-some (x ∷ rs) zero r = ground (arith, last_from-none rs)
  last_from-some (x ∷ rs) (suc i) r = ground (arith, last_from-none rs, last_from-some rs i r)

  last-last_from : (p : Policy) → last_match finding leg destination (some p) ≡ last_from p.rules
  unfolding last_match
  last-last_from p = ground (arith, scan-last_from p.rules 0 none)

  -- `_last_match` returns rule `r` at index `i` exactly when that rule of the policy matches the
  -- finding and no later rule does.
  pub last_match_iff :
      (p : Policy) (i : ℕ) (r : Rule)
      → (last_match finding leg destination (some p) ≡ some (i, r)) ↔ WinsAt p.rules i r
  last_match_iff p i r = rw last-last_from (last_from-some p.rules i r)

  pub last_match-none :
      (p : Policy)
      → (last_match finding leg destination (some p) ≡ none) ↔ All (λ s. matching s ≡ false) p.rules
  last_match-none p = rw last-last_from (last_from-none p.rules)
