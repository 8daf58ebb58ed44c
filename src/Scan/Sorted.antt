-- ===== src/Scan/Sorted.antt =====
-- The result of `_dedupe` of gateway/base/scanner.py, sorted.
use zero_trace.Prelude.{All-map, ◌≡◌, refl, false, List, [], ◌∷◌, All, Any, Bool-cases, inl, inr}
use zero_trace.Scan.{Finding}
use zero_trace.Scan.Dedupe.{same_key, best_of, before, insert_finding, sort_findings, dedupe}
use zero_trace.Scan.Best.{
  Stands, Apart, DistinctKeys, differs_sym, best_of-DistinctKeys, best_of-Kept, best_of-All,
}

module _ (P : Finding → Type 0) where
  insert_finding-All :
      (f : Finding) (gs : List Finding) → P f → All P gs → All P (insert_finding f gs)
  unfolding insert_finding
  insert_finding-All f [] p a = (p, tt)
  insert_finding-All f (g ∷ gs) p a = elim (Bool-cases (before g f)) [
    | inl earlier ↦ rw earlier (a.0, insert_finding-All f gs p a.1)
    | inr later ↦ rw later (p, a)
  ]

  sort_findings-All : (fs : List Finding) → All P fs → All P (sort_findings fs)
  unfolding sort_findings
  sort_findings-All [] a = tt
  sort_findings-All (f ∷ fs) a =
      insert_finding-All f (sort_findings fs) a.0 (sort_findings-All fs a.1)

  insert_finding-head : (f : Finding) (gs : List Finding) → P f → Any P (insert_finding f gs)
  unfolding insert_finding
  insert_finding-head f [] p = inl p
  insert_finding-head f (g ∷ gs) p = elim (Bool-cases (before g f)) [
    | inl earlier ↦ rw earlier (inr (insert_finding-head f gs p))
    | inr later ↦ rw later (inl p)
  ]

  insert_finding-Any : (f : Finding) (gs : List Finding) → Any P gs → Any P (insert_finding f gs)
  unfolding insert_finding
  insert_finding-Any f [] a = absurd a
  insert_finding-Any f (g ∷ gs) (inl p) = elim (Bool-cases (before g f)) [
    | inl earlier ↦ rw earlier (inl p)
    | inr later ↦ rw later (inr (inl p))
  ]
  insert_finding-Any f (g ∷ gs) (inr a) = elim (Bool-cases (before g f)) [
    | inl earlier ↦ rw earlier (inr (insert_finding-Any f gs a))
    | inr later ↦ rw later (inr (inr a))
  ]

  sort_findings-Any : (fs : List Finding) → Any P fs → Any P (sort_findings fs)
  unfolding sort_findings
  sort_findings-Any [] a = absurd a
  sort_findings-Any (f ∷ fs) (inl p) = insert_finding-head f (sort_findings fs) p
  sort_findings-Any (f ∷ fs) (inr a) =
      insert_finding-Any f (sort_findings fs) (sort_findings-Any fs a)

insert_finding-DistinctKeys :
    (f : Finding) (gs : List Finding)
    → Apart f gs
    → DistinctKeys gs
    → DistinctKeys (insert_finding f gs)
unfolding insert_finding
insert_finding-DistinctKeys f [] a d = (tt, tt)
insert_finding-DistinctKeys f (g ∷ gs) a d = elim (Bool-cases (before g f)) [
  | inl earlier ↦ rw earlier (
    insert_finding-All (λ x. same_key x g ≡ false) f gs (differs_sym f g a.0) d.0,
    insert_finding-DistinctKeys f gs a.1 d.1,
  )
  | inr later ↦ rw later (a, d)
]

sort_findings-DistinctKeys : (fs : List Finding) → DistinctKeys fs → DistinctKeys (sort_findings fs)
unfolding sort_findings
sort_findings-DistinctKeys [] d = tt
sort_findings-DistinctKeys (f ∷ fs) d =
    insert_finding-DistinctKeys f (sort_findings fs)
      (sort_findings-All (λ x. same_key x f ≡ false) fs d.0) (sort_findings-DistinctKeys fs d.1)

each_occurs : (fs : List Finding) → All (λ g. Any (λ f. f ≡ g) fs) fs
each_occurs [] = tt
each_occurs (f ∷ fs) = (inl refl, All-map (λ g a. inr a) fs (each_occurs fs))

-- The result has one finding for each key, every one is among the findings given, and each finding
-- given is represented by one with its key and at least its confidence.
pub dedupe-DistinctKeys :
    (fs : List Finding)
    → DistinctKeys (dedupe fs)
      × All (λ g. Any (λ f. f ≡ g) fs) (dedupe fs)
      × All (λ f. Any (Stands f) (dedupe fs)) fs
unfolding dedupe
dedupe-DistinctKeys fs = (
  sort_findings-DistinctKeys (best_of fs []) (best_of-DistinctKeys fs [] tt),
  sort_findings-All (λ g. Any (λ f. f ≡ g) fs) (best_of fs [])
      (best_of-All (λ g. Any (λ f. f ≡ g) fs) fs [] (each_occurs fs) tt),
  All-map (λ f k. sort_findings-Any (Stands f) (best_of fs []) k) fs (best_of-Kept fs []),
)
