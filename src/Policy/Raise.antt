-- ===== src/Policy/Raise.antt =====
-- What `check_bu_may_only_raise` of Control-DB/zerotrace/policy/engine.py guarantees at request time.
use zero_trace.Prelude.{
  ℕ, zero, suc, ◌+◌, ◌≤◌, ◌<◌, ◌≡◌, refl, ◌⊎◌, ◌&&◌, true, false, Option, none, some, String, List,
  [], ◌∷◌, arith, All, contains, get_elem?, Bool-cases, eq_iff, inl, inr,
}
use mathlib.Core.Path.{subst}
use native.Mathlib.Nat.{zero-add}
use zero_trace.Policy.{Leg, Rule, Policy, Finding}
use zero_trace.Policy.Lattice.{rank, is_weaker}
use zero_trace.Policy.Matching.{rule_matches, any_in, named}
use zero_trace.Policy.Publish.{
  Published, accepted, weakens_org_rule, matches_overlap, check_rule, check_rules, has_clearance,
  check_bu_may_only_raise,
}

-- Two lists that share a text overlap.
any_in_of_contains :
    (x : String) (xs ys : List String)
    → contains x xs ≡ true
    → contains x ys ≡ true
    → any_in xs ys ≡ true
any_in_of_contains x [] ys h k = h
any_in_of_contains x (y ∷ xs) ys h k = ground (arith, eq_iff x y, any_in_of_contains x xs ys)

overlap_of_destination :
    (d : Option String) (xs ys : List String)
    → named d xs ≡ true
    → named d ys ≡ true
    → any_in xs ys ≡ true
overlap_of_destination none xs ys h k = cc
overlap_of_destination (some d) xs ys h k = any_in_of_contains d xs ys h k

-- Two rules that match one finding on one leg to one destination overlap.
pub overlap_of_matches :
    (a b : Rule) (finding : Finding) (leg : Leg) (destination : Option String)
    → rule_matches a finding leg destination ≡ true
    → rule_matches b finding leg destination ≡ true
    → matches_overlap a.match b.match ≡ true
unfolding rule_matches matches_overlap
overlap_of_matches a b finding leg destination h k = ground (
  arith,
  any_in_of_contains finding.entity_class a.match.class_ b.match.class_,
  overlap_of_destination destination a.match.destination b.match.destination,
)

-- Rule `r` is not weaker than the org rule `o` where they overlap.
abbrev Raises : Rule → Rule → Type 0
Raises r o = matches_overlap r.match o.match ≡ true → rank o.action ≤ rank r.action

check_rule-accepted :
    (b : ℕ) (r : Rule) (i : ℕ) (os : List Rule) → check_rule b r i os ≡ accepted → All (Raises r) os
unfolding check_rule
check_rule-accepted b r i [] h = tt
check_rule-accepted b r i (o ∷ os) h = ground (arith, check_rule-accepted b r (i + 1) os)

check_rules-accepted :
    (os : List Rule) (i : ℕ) (rs : List Rule)
    → check_rules os i rs ≡ accepted
    → All (λ r. has_clearance r ≡ false → All (Raises r) os) rs
unfolding check_rules
check_rules-accepted os i [] h = tt
check_rules-accepted os i (r ∷ rs) h =
    ground (arith, check_rule-accepted i r 0 os, check_rules-accepted os (i + 1) rs)

-- What holds of every element holds of the one at `i`.
abbrev At {ℓ} : {A : Type 0} → (A → Type ℓ) → Option A → Type ℓ
At P none = Unit
At P (some x) = P x

All-At {ℓ} : {A : Type 0} (P : A → Type ℓ) (xs : List A) (i : ℕ) → All P xs → At P (get_elem? xs i)
All-At P [] i h = tt
All-At P (y ∷ xs) zero h = h.0
All-At P (y ∷ xs) (suc i) h = All-At P xs i h.1

At-some {ℓ} : {A : Type 0} (P : A → Type ℓ) (o : Option A) (x : A) → o ≡ some x → At P o → P x
At-some P o x e h = subst (At P) e h

bu_rules-Raises :
    (org bu : Policy) (i : ℕ) (r : Rule)
    → check_bu_may_only_raise org bu ≡ accepted
    → get_elem? bu.rules i ≡ some r
    → has_clearance r ≡ false
    → All (Raises r) org.rules
unfolding check_bu_may_only_raise
bu_rules-Raises org bu i r h at_r =
    At-some (λ q. has_clearance q ≡ false → All (Raises q) org.rules) (get_elem? bu.rules i) r at_r
      (All-At (λ q. has_clearance q ≡ false → All (Raises q) org.rules) bu.rules i
        (check_rules-accepted org.rules 0 bu.rules h))

-- Once the check has accepted a business unit's policy, a rule of it without clearance blocks is at
-- least as strong as every org rule that matches the same finding on the same leg and destination.
pub accepted-Raises :
    (org bu : Policy) (finding : Finding) (leg : Leg) (destination : Option String) (i j : ℕ)
    (r o : Rule)
    → check_bu_may_only_raise org bu ≡ accepted
    → get_elem? bu.rules i ≡ some r
    → get_elem? org.rules j ≡ some o
    → has_clearance r ≡ false
    → rule_matches r finding leg destination ≡ true
    → rule_matches o finding leg destination ≡ true
    → rank o.action ≤ rank r.action
accepted-Raises org bu finding leg destination i j r o h at_r at_o bare matches_r matches_o =
    At-some (Raises r) (get_elem? org.rules j) o at_o
      (All-At (Raises r) org.rules j (bu_rules-Raises org bu i r h at_r bare))
      (overlap_of_matches r o finding leg destination matches_r matches_o)

Published-cases :
    (p : Published) → (p ≡ accepted) ⊎ ((b : ℕ) × (j : ℕ) × (p ≡ weakens_org_rule b j))
Published-cases accepted = inl refl
Published-cases (weakens_org_rule b j) = inr (b, j, refl)

-- A refusal names a rule of the business unit and an org rule that overlap, the first weaker.
abbrev pub Weakens : List Rule → List Rule → ℕ → ℕ → Type 0
Weakens rs os i j =
    (r : Rule) × (o : Rule) × (get_elem? rs i ≡ some r)
    × (get_elem? os j ≡ some o)
    × (has_clearance r ≡ false)
    × (matches_overlap r.match o.match ≡ true)
    × (rank r.action < rank o.action)

check_rule-Weakens :
    (b : ℕ) (r : Rule) (i : ℕ) (os : List Rule) (b' j : ℕ)
    → check_rule b r i os ≡ weakens_org_rule b' j
    → (k : ℕ) × (o : Rule) × (b' ≡ b)
      × (j ≡ i + k)
      × (get_elem? os k ≡ some o)
      × (matches_overlap r.match o.match ≡ true)
      × (rank r.action < rank o.action)
unfolding check_rule
check_rule-Weakens b r i [] b' j h = cc
check_rule-Weakens b r i (o ∷ os) b' j h =
    elim (Bool-cases (matches_overlap r.match o.match && is_weaker r.action o.action)) [
      | inl e ↦ (zero, o, ground arith, ground arith, refl, ground arith, ground arith)
      | inr e ↦
          let (k, o', eb, ej, ek, em, el) = check_rule-Weakens b r (i + 1) os b' j (ground arith) in
          (suc k, o', eb, omega arith, ek, em, el)
    ]

check_rules-Weakens :
    (os : List Rule) (i : ℕ) (rs : List Rule) (b j : ℕ)
    → check_rules os i rs ≡ weakens_org_rule b j
    → (k : ℕ) × (b ≡ i + k) × Weakens rs os k j
unfolding check_rules
check_rules-Weakens os i [] b j h = cc
check_rules-Weakens os i (r ∷ rs) b j h = elim (Bool-cases (has_clearance r)) [
  | inl skipped ↦ later (check_rules-Weakens os (i + 1) rs b j (ground arith))
  | inr bare ↦ elim (Published-cases (check_rule i r 0 os)) [
    | inl fine ↦ later (check_rules-Weakens os (i + 1) rs b j (ground arith))
    | inr (b', j', bad) ↦ found bare (check_rule-Weakens i r 0 os b j (ground arith))
  ]
]
  where
    later :
        (k : ℕ) × (b ≡ i + 1 + k) × Weakens rs os k j
        → (k : ℕ) × (b ≡ i + k) × Weakens (r ∷ rs) os k j
    later (k, e, w) = (suc k, omega arith, w)

    found :
        has_clearance r ≡ false
        → (k : ℕ) × (o : Rule) × (b ≡ i)
          × (j ≡ 0 + k)
          × (get_elem? os k ≡ some o)
          × (matches_overlap r.match o.match ≡ true)
          × (rank r.action < rank o.action)
        → (k : ℕ) × (b ≡ i + k) × Weakens (r ∷ rs) os k j
    found bare (k, o, eb, ej, ek, em, el) =
        (zero, omega arith, (r, o, refl, rw (ej, zero-add) ek, bare, em, el))

-- A refused policy has a rule without clearance blocks, and the org a rule that overlaps it, at the
-- two indices of the refusal, and the first is the weaker.
pub refused-Weakens :
    (org bu : Policy) (i j : ℕ)
    → check_bu_may_only_raise org bu ≡ weakens_org_rule i j
    → Weakens bu.rules org.rules i j
unfolding check_bu_may_only_raise
refused-Weakens org bu i j h =
    let (k, e, w) = check_rules-Weakens org.rules 0 bu.rules i j h in
    let e' : i ≡ k = omega arith in rw e' w
