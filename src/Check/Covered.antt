-- ===== src/Check/Covered.antt =====
-- What a scan of gateway/base/checker.py that ends has looked at.
use zero_trace.Prelude.{
  ℕ, String, ◌≡◌, refl, sym, ap, ◌∙◌, ◌⊎◌, inl, inr, Bool, false, List, [], ◌∷◌, ◌++◌, map, length,
  All, All-map, Any, Bool-cases, Option-cases,
}
use mathlib.Core.Path.{subst}
use mathlib.Core.List.{append_assoc, append-nil}
use zero_trace.Cache.Lru.{Cache, find, lookup}
use zero_trace.Cache.Entries.{All-find, lookup-All, store-All}
use zero_trace.Check.Detection.{Detection}
use zero_trace.Spans.{Span}
use zero_trace.Check.Loop.{
  Stop, ScanResult, found, stopped, AllScanned, scanned, interrupted, Progress, start, reanchored,
  scan_one, scan_all,
}

-- Every item of a list is in it.
items_within : {A : Type 0} (xs : List A) → All (λ x. Any (λ y. y ≡ x) xs) xs
items_within [] = tt
items_within (x ∷ xs) = (inl refl, All-map (λ z m. inr m) xs (items_within xs))

pub ScanResult-cases :
    (r : ScanResult) → ((why : Stop) × (r ≡ stopped why)) ⊎ ((fs : List Detection) × (r ≡ found fs))
ScanResult-cases (stopped why) = inl (why, refl)
ScanResult-cases (found fs) = inr (fs, refl)

AllScanned-cases :
    (a : AllScanned)
    → ((why : Stop) × ((c : Cache (List Detection)) × (a ≡ interrupted why c)))
      ⊎ ((p : Progress) × (a ≡ scanned p))
AllScanned-cases (interrupted why c) = inl (why, (c, refl))
AllScanned-cases (scanned p) = inr (p, refl)

pub scanned_injective : (p q : Progress) → scanned p ≡ scanned q → p ≡ q
scanned_injective p q e = cc

pub interrupted-scanned :
    (why : Stop) (c : Cache (List Detection)) (p : Progress) → interrupted why c ≡ scanned p → ⊥
interrupted-scanned why c p e = cc

-- `before` are the entries of the cache when the scan starts.
module _ (key : List ℕ → String) (scan : Span → ScanResult) (expired : ℕ → Bool) (tree : List Span)
    (before : List (String × List Detection)) where
  -- The findings stood in the cache under the key before the scan, or are those of the scan of a span
  -- of the tree whose text has the key.
  abbrev pub IsKnown : String × List Detection → Type 0
  IsKnown e =
      Any (λ x. x ≡ e) before
      ⊎ ((t : Span) × (Any (λ x. x ≡ t) tree × ((key t.text ≡ e.0) × (scan t ≡ found e.1))))

  -- The findings are those of the span's own scan, or known ones, anchored at the span.
  abbrev pub AreOf : Span → List Detection → Type 0
  AreOf s own =
      (scan s ≡ found own)
      ⊎ ((fs : List Detection) × (IsKnown (key s.text, fs) × (own ≡ map (reanchored s) fs)))

  -- The findings are one block for each span, in order, and the deadline had not passed at any.
  abbrev pub Covers : List Span → List Detection → Type 0
  Covers [] all = all ≡ []
  Covers (s ∷ ss) all =
      (expired (length ss) ≡ false)
      × ((own : List Detection) × ((rest : List Detection) × ((all ≡ own ++ rest)
              × (AreOf s own × Covers ss rest))))

  -- What one span adds, where the cache holds known findings.
  abbrev Adds : Span → Progress → Progress → Type 0
  Adds s p q =
      (own : List Detection) × ((q.findings ≡ p.findings ++ own)
        × (AreOf s own × All IsKnown q.spans.entries))

  scan_one-Adds :
      (s : Span) (p q : Progress)
      → Any (λ x. x ≡ s) tree
      → All IsKnown p.spans.entries
      → scan_one key scan expired s p ≡ scanned q
      → Adds s p q
  unfolding scan_one lookup
  scan_one-Adds s p q in_ known e = elim (Option-cases (find (key s.text) p.spans.entries)) [
    | inr (fs, hit) ↦ subst (Adds s p) (scanned_injective _ q (rw (scan_one, hit) at e)) (
      map (reanchored s) fs,
      (
        refl,
        (
          inr (fs, (All-find IsKnown (key s.text) p.spans.entries fs known hit, refl)),
          lookup-All IsKnown (key s.text) p.spans known,
        ),
      ),
    )
    | inl miss ↦ elim (ScanResult-cases (scan s)) [
      | inl (why, bad) ↦ absurd (interrupted-scanned _ _ q (rw (scan_one, miss, bad) at e))
      | inr (fs, good) ↦ subst (Adds s p) (scanned_injective _ q (rw (scan_one, miss, good) at e)) (
        fs,
        (
          refl,
          (
            inl good,
            store-All IsKnown (key s.text) fs (lookup (key s.text) p.spans).1
                (lookup-All IsKnown (key s.text) p.spans known) (inr (s, (in_, (refl, good)))),
          ),
        ),
      )
    ]
  ]

  pub scan_all-Covers :
      (ss : List Span) (p q : Progress)
      → All (λ s. Any (λ x. x ≡ s) tree) ss
      → All IsKnown p.spans.entries
      → scan_all key scan expired ss p ≡ scanned q
      → (all : List Detection) × ((q.findings ≡ p.findings ++ all) × Covers ss all)
  unfolding scan_all
  scan_all-Covers [] p q in_ known e = (
    [],
    (sym (ap (λ (r : Progress). r.findings) (scanned_injective p q e)) ∙ sym (append-nil _), refl),
  )
  scan_all-Covers (s ∷ ss) p q (i, in_) known e = elim (Bool-cases (expired (length ss))) [
    | inl late ↦ absurd (interrupted-scanned _ _ q (rw (scan_all, late) at e))
    | inr on_time ↦ elim (AllScanned-cases (scan_one key scan expired s p)) [
      | inl (why, (c, bad)) ↦ absurd (interrupted-scanned _ _ q (rw (scan_all, on_time, bad) at e))
      | inr (r, one) ↦
          let (own, (adds, (fits, known'))) = scan_one-Adds s p r i known one in
          let (rest, (more, covers)) =
            scan_all-Covers ss r q in_ known' (rw (scan_all, on_time, one) at e) in
          (
            own ++ rest,
            (
              more ∙ ap (λ xs. xs ++ rest) adds ∙ append_assoc p.findings own rest,
              (on_time, (own, (rest, (refl, (fits, covers))))),
            ),
          )
    ]
  ]

-- A scan that ends has looked at every span.
pub scan_all-start :
    (key : List ℕ → String) (scan : Span → ScanResult) (expired : ℕ → Bool) (tree : List Span)
    (spans : Cache (List Detection)) (p : Progress)
    → scan_all key scan expired tree (start spans) ≡ scanned p
    → Covers key scan expired tree spans.entries tree p.findings
scan_all-start key scan expired tree spans p e =
    let (all, (same, covers)) =
      scan_all-Covers key scan expired tree spans.entries tree (start spans) p (items_within tree)
        (All-map (λ x m. inl m) spans.entries (items_within spans.entries)) e in
    subst (Covers key scan expired tree spans.entries tree) (sym same) covers
