-- ===== src/Chains/Roots.antt =====
-- `_root_tenant` of Control-DB/zerotrace/ledger/chain.py.
use zero_trace.Prelude.{
  ℕ, zero, suc, ◌≤◌, ◌<◌, String, ◌≡◌, ◌≢◌, false, Option, none, some, List, [], ◌∷◌, arith, str_eq,
  eq_iff, contains, length, Bool-cases, Option-cases, inl, inr, if◌then◌else◌,
}

-- `tenants`: each tenant's parent.
abbrev pub Parents : Type 0
Parents = List (String × Option String)

-- `tenants.get(t)`, where a missing tenant and a missing parent are both None.
unfoldable pub parent_of : Parents → String → Option String
parent_of [] t = none
parent_of ((u, p) ∷ ps) t = if str_eq u t then p else parent_of ps t

pub data Root : Type 0 where
  root : String → Root
  cyclic : Root
  out_of_fuel : Root

-- The loop, with fuel.
unfoldable pub root_from : Parents → ℕ → List String → String → Root
root_from ps zero seen t = out_of_fuel
root_from ps (suc n) seen t = elim (parent_of ps t) [
  | none ↦ root t
  | some p ↦ if contains t seen then cyclic else root_from ps n (t ∷ seen) p
]

unfoldable pub root_tenant : Parents → String → Root
unfolding root_from
root_tenant ps t = root_from ps (suc (length ps)) [] t

-- The tenants that the loop has not passed.
unseen : List String → Parents → ℕ
unseen seen [] = 0
unseen seen ((u, p) ∷ ps) = let rest = unseen seen ps in if contains u seen then rest else suc rest

unseen-le : (t : String) (seen : List String) (ps : Parents) → unseen (t ∷ seen) ps ≤ unseen seen ps
unfolding unseen
unseen-le t seen [] = omega arith
unseen-le t seen ((u, p) ∷ ps) = ground (arith, unseen-le t seen ps)

unseen-lt :
    (t p : String) (seen : List String) (ps : Parents)
    → parent_of ps t ≡ some p
    → contains t seen ≡ false
    → unseen (t ∷ seen) ps < unseen seen ps
unfolding unseen parent_of
unseen-lt t p seen [] h new = cc
unseen-lt t p seen ((u, q) ∷ ps) h new =
    ground (arith, unseen-le t seen ps, unseen-lt t p seen ps, eq_iff u t, eq_iff t t, eq_iff t u)

unseen-length : (ps : Parents) → unseen [] ps ≤ length ps
unfolding unseen
unseen-length [] = omega arith
unseen-length ((u, p) ∷ ps) = ground (arith, unseen-length ps)

root_from-ends :
    (ps : Parents) (n : ℕ) (seen : List String) (t : String)
    → unseen seen ps < n
    → root_from ps n seen t ≢ out_of_fuel
unfolding root_from
root_from-ends ps zero seen t h = absurd (omega arith)
root_from-ends ps (suc n) seen t h = elim (Option-cases (parent_of ps t)) [
  | inl e ↦ rw (root_from, e) (λ c. ground arith)
  | inr (p, e) ↦ elim (Bool-cases (contains t seen)) [
    | inl old ↦ rw (root_from, e, old) (λ c. ground arith)
    | inr new ↦
        rw (root_from, e, new)
          (root_from-ends ps n (t ∷ seen) p (omega (arith, unseen-lt t p seen ps e new)))
  ]
]

-- The walk to the root ends: the fuel of one more than the number of tenants is enough, whatever
-- the parents are.
pub root_tenant-ends : (ps : Parents) (t : String) → root_tenant ps t ≢ out_of_fuel
unfolding root_tenant
root_tenant-ends ps t = root_from-ends ps (suc (length ps)) [] t (omega (arith, unseen-length ps))
