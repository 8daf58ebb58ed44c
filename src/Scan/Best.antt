-- ===== src/Scan/Best.antt =====
-- What the loop of `_dedupe` of gateway/base/scanner.py keeps.
use mathlib.Core.Bool.{false≢true}
use zero_trace.Prelude.{
  sym, ◌∙◌, All-map, ◌≤◌, ◌≡◌, refl, true, false, List, [], ◌∷◌, arith, ltb, str_eq_refl, ==_refl,
  eq_iff, All, Any, Bool-cases, ◌⊎◌, inl, inr,
}
use zero_trace.Scan.{Finding}
use zero_trace.Scan.Dedupe.{same_key, improve, best_of}

-- A finding with the key of another, and at least its confidence.
abbrev pub Stands : Finding → Finding → Type 0
Stands f g = (same_key g f ≡ true) × (f.confidence ≤ g.confidence)

abbrev Kept : Finding → List Finding → Type 0
Kept f gs = Any (Stands f) gs

same_key_refl : (f : Finding) → same_key f f ≡ true
same_key_refl f =
    rw (str_eq_refl f.span_path, ==_refl f.start, ==_refl f.end, str_eq_refl f.entity_class) refl

Stands-refl : (f : Finding) → Stands f f
Stands-refl f = (same_key_refl f, omega arith)

same_key_trans : (f g k : Finding) → same_key g f ≡ true → same_key k g ≡ true → same_key k f ≡ true
same_key_trans f g k a b = ground (
  arith,
  eq_iff g.span_path f.span_path,
  eq_iff k.span_path g.span_path,
  eq_iff k.span_path f.span_path,
  eq_iff g.entity_class f.entity_class,
  eq_iff k.entity_class g.entity_class,
  eq_iff k.entity_class f.entity_class,
)

same_key_sym : (f g : Finding) → same_key g f ≡ true → same_key f g ≡ true
same_key_sym f g a = ground (
  arith,
  eq_iff g.span_path f.span_path,
  eq_iff f.span_path g.span_path,
  eq_iff g.entity_class f.entity_class,
  eq_iff f.entity_class g.entity_class,
)

Stands-trans : (f g k : Finding) → Stands f g → Stands g k → Stands f k
Stands-trans f g k a b = (same_key_trans f g k a.0 b.0, omega (arith, a.1, b.1))

improve-Kept : (f : Finding) (gs : List Finding) → Kept f (improve f gs)
unfolding improve
improve-Kept f [] = inl (Stands-refl f)
improve-Kept f (g ∷ gs) = elim (Bool-cases (same_key g f)) [
  | inr other ↦ rw (improve, other) (inr (improve-Kept f gs))
  | inl same ↦ elim (Bool-cases (ltb g.confidence f.confidence)) [
    | inl better ↦ rw (improve, same, better) (inl (Stands-refl f))
    | inr worse ↦ rw (improve, same, worse) (inl (same, ground arith))
  ]
]

improve-keeps : (f k : Finding) (gs : List Finding) → Kept k gs → Kept k (improve f gs)
unfolding improve
improve-keeps f k [] h = absurd h
improve-keeps f k (g ∷ gs) h = elim (Bool-cases (same_key g f)) [
  | inr other ↦ rw (improve, other) (later_raised (improve-keeps f k gs) h)
  | inl same ↦ elim (Bool-cases (ltb g.confidence f.confidence)) [
    | inl better ↦ rw (improve, same, better) (raised same (ground arith) h)
    | inr worse ↦ rw (improve, same, worse) h
  ]
]
  where
    later_raised :
        (Kept k gs → Kept k (improve f gs))
        → Stands k g ⊎ Kept k gs
        → Stands k g ⊎ Kept k (improve f gs)
    later_raised up (inl s) = inl s
    later_raised up (inr later) = inr (up later)

    raised :
        same_key g f ≡ true
        → g.confidence ≤ f.confidence
        → Stands k g ⊎ Kept k gs
        → Stands k f ⊎ Kept k gs
    raised same le (inl s) = inl (Stands-trans k g f s (same_key_sym f g same, le))
    raised same le (inr later) = inr later

best_of-keeps : (k : Finding) (fs best : List Finding) → Kept k best → Kept k (best_of fs best)
unfolding best_of
best_of-keeps k [] best h = h
best_of-keeps k (f ∷ fs) best h = best_of-keeps k fs (improve f best) (improve-keeps f k best h)

pub best_of-Kept : (fs best : List Finding) → All (λ f. Kept f (best_of fs best)) fs
unfolding best_of
best_of-Kept [] best = tt
best_of-Kept (f ∷ fs) best =
    (best_of-keeps f fs (improve f best) (improve-Kept f best), best_of-Kept fs (improve f best))

-- No two findings of the list have one key.
abbrev pub Apart : Finding → List Finding → Type 0
Apart f gs = All (λ g. same_key g f ≡ false) gs

abbrev pub DistinctKeys : List Finding → Type 0
DistinctKeys [] = Unit
DistinctKeys (f ∷ fs) = Apart f fs × DistinctKeys fs

pub differs_sym : (f g : Finding) → same_key g f ≡ false → same_key f g ≡ false
differs_sym f g d = elim (Bool-cases (same_key f g)) [
  | inl same ↦ absurd (false≢true (sym d ∙ same_key_sym g f same))
  | inr other ↦ other
]

improve-Apart :
    (f k : Finding) (gs : List Finding) → same_key f k ≡ false → Apart k gs → Apart k (improve f gs)
unfolding improve
improve-Apart f k [] d a = (d, tt)
improve-Apart f k (g ∷ gs) d a = elim (Bool-cases (same_key g f)) [
  | inr other ↦ rw (improve, other) (a.0, improve-Apart f k gs d a.1)
  | inl same ↦ elim (Bool-cases (ltb g.confidence f.confidence)) [
    | inl better ↦ rw (improve, same, better) (d, a.1)
    | inr worse ↦ rw (improve, same, worse) a
  ]
]

same_key-Apart : (f g : Finding) (gs : List Finding) → same_key g f ≡ true → Apart g gs → Apart f gs
same_key-Apart f g gs same a = All-map apart gs a
  where
    apart : (x : Finding) → same_key x g ≡ false → same_key x f ≡ false
    apart x d = elim (Bool-cases (same_key x f)) [
      | inl e ↦ absurd (false≢true (sym d ∙ same_key_trans g f x (same_key_sym f g same) e))
      | inr e ↦ e
    ]

improve-DistinctKeys :
    (f : Finding) (gs : List Finding) → DistinctKeys gs → DistinctKeys (improve f gs)
unfolding improve
improve-DistinctKeys f [] d = (tt, tt)
improve-DistinctKeys f (g ∷ gs) d = elim (Bool-cases (same_key g f)) [
  | inr other ↦
      rw (improve, other)
        (improve-Apart f g gs (differs_sym f g other) d.0, improve-DistinctKeys f gs d.1)
  | inl same ↦ elim (Bool-cases (ltb g.confidence f.confidence)) [
    | inl better ↦ rw (improve, same, better) (same_key-Apart f g gs same d.0, d.1)
    | inr worse ↦ rw (improve, same, worse) d
  ]
]

pub best_of-DistinctKeys :
    (fs best : List Finding) → DistinctKeys best → DistinctKeys (best_of fs best)
unfolding best_of
best_of-DistinctKeys [] best d = d
best_of-DistinctKeys (f ∷ fs) best d =
    best_of-DistinctKeys fs (improve f best) (improve-DistinctKeys f best d)

module _ (P : Finding → Type 0) where
  improve-All : (f : Finding) (gs : List Finding) → P f → All P gs → All P (improve f gs)
  unfolding improve
  improve-All f [] p a = (p, tt)
  improve-All f (g ∷ gs) p a = elim (Bool-cases (same_key g f)) [
    | inr other ↦ rw (improve, other) (a.0, improve-All f gs p a.1)
    | inl same ↦ elim (Bool-cases (ltb g.confidence f.confidence)) [
      | inl better ↦ rw (improve, same, better) (p, a.1)
      | inr worse ↦ rw (improve, same, worse) a
    ]
  ]

  pub best_of-All : (fs best : List Finding) → All P fs → All P best → All P (best_of fs best)
  unfolding best_of
  best_of-All [] best a b = b
  best_of-All (f ∷ fs) best a b = best_of-All fs (improve f best) a.1 (improve-All f best a.0 b)
