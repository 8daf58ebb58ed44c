-- ===== src/Check/Cached.antt =====
-- That the cache of gateway/base/checker.py does not change what is found.
use mathlib.Core.Path.{subst}
use mathlib.Core.Option.{some-injective}
use zero_trace.Prelude.{
  ℕ, ◌+◌, String, ◌≡◌, refl, sym, ap, ◌∙◌, inl, inr, Bool, Option, none, some, List, [], ◌∷◌, ◌++◌,
  map, length, All, Bool-cases, Option-cases,
}
use mathlib.Core.List.{append_assoc, append-nil}
use zero_trace.Cache.Lru.{Cache, find, lookup, store}
use zero_trace.Cache.Entries.{All-find, lookup-All, store-All}
use zero_trace.Spans.{Span}
use zero_trace.Check.Covered.{ScanResult-cases, scanned_injective, interrupted-scanned}
use zero_trace.Check.Detection.{Detection, stage_of}
use zero_trace.Check.Loop.{
  ScanResult, found, stopped, scanned, Progress, start, reanchored, scan_one, scan_all,
}

-- A finding without what a cached one loses.
abbrev pub forgotten : Detection → Detection
forgotten f = record f { detector_id = none; stage = stage_of f.tier }

-- The checker without a cache; none if a scan stops.
unfoldable pub reference : (Span → ScanResult) → List Span → Option (List Detection)
unfolding reanchored
reference scan [] = some []
reference scan (s ∷ ss) = elim (scan s) [
  | stopped why ↦ none
  | found fs ↦ elim (reference scan ss) [
    | none ↦ none
    | some rest ↦ some (map (reanchored s) fs ++ rest)
  ]
]

none-some : {fs : List Detection} → none ≡ some fs → ⊥
none-some e = cc

module _ (key : List ℕ → String) (scan : Span → ScanResult) (expired : ℕ → Bool) where
  -- Findings that, at every span of the key, are those of its scan.
  abbrev pub IsFaithful : String × List Detection → Type 0
  IsFaithful (k, fs) =
      (s : Span) (gs : List Detection)
      → key s.text ≡ k
      → scan s ≡ found gs
      → map (reanchored s) fs ≡ map (reanchored s) gs

  -- Spans whose texts have one key have the same findings, apart from their path and leg, which are
  -- the span's own.
  pub record IsTextual : Type 0 where
    pub same_key :
        (s t : Span) (fs gs : List Detection)
        → key s.text ≡ key t.text
        → scan s ≡ found fs
        → scan t ≡ found gs
        → map (reanchored t) fs ≡ map (reanchored t) gs
    pub own_place :
        (s : Span) (fs : List Detection)
        → scan s ≡ found fs
        → map forgotten fs ≡ map (reanchored s) fs

  forgotten-reanchored :
      (s : Span) (fs : List Detection)
      → map forgotten (map (reanchored s) fs) ≡ map (reanchored s) fs
  unfolding reanchored
  forgotten-reanchored s [] = refl
  forgotten-reanchored s (f ∷ fs) = ap (λ xs. reanchored s f ∷ xs) (forgotten-reanchored s fs)

  forgotten-append :
      (fs gs : List Detection) → map forgotten (fs ++ gs) ≡ map forgotten fs ++ map forgotten gs
  forgotten-append [] gs = refl
  forgotten-append (f ∷ fs) gs = ap (λ xs. forgotten f ∷ xs) (forgotten-append fs gs)

  -- What one span adds, and that the cache stays faithful.
  scan_one-reference :
      IsTextual
      → (s : Span) (fs : List Detection) (p : Progress) → All IsFaithful p.spans.entries
      → scan s ≡ found fs
      → (p' : Progress) × ((scan_one key scan expired s p ≡ scanned p')
          × ((map forgotten p'.findings ≡ map forgotten p.findings ++ map (reanchored s) fs)
              × All IsFaithful p'.spans.entries))
  unfolding scan_one lookup store
  scan_one-reference textual s fs p ok e = elim (Option-cases (find (key s.text) p.spans.entries)) [
    | inr (gs, hit) ↦
        let faithful = All-find IsFaithful (key s.text) p.spans.entries gs ok hit in
        let after : Progress = record {
          findings = p.findings ++ map (reanchored s) gs;
          hits = p.hits + 1;
          misses = p.misses;
          spans = (lookup (key s.text) p.spans).1;
        } in
        (
          after,
          (
            rw (scan_one, hit) refl,
            (
              forgotten-append p.findings _
                  ∙ ap (λ xs. map forgotten p.findings ++ xs)
                      (forgotten-reanchored s gs ∙ faithful s fs refl e),
              lookup-All IsFaithful (key s.text) p.spans ok,
            ),
          ),
        )
    | inl miss ↦ (
      record {
        findings = p.findings ++ fs;
        hits = p.hits;
        misses = p.misses + 1;
        spans = store (key s.text) fs (lookup (key s.text) p.spans).1;
      },
      (
        rw (scan_one, miss, e) refl,
        (
          forgotten-append p.findings fs
              ∙ ap (λ xs. map forgotten p.findings ++ xs) (textual.own_place s fs e),
          store-All IsFaithful (key s.text) fs (lookup (key s.text) p.spans).1
              (lookup-All IsFaithful (key s.text) p.spans ok)
              (λ t gs same scans. textual.same_key s t fs gs (sym same) e scans),
        ),
      ),
    )
  ]

  scan_all-from :
      IsTextual
      → (tree : List Span) (p p' : Progress) (fs : List Detection) → All IsFaithful p.spans.entries
      → reference scan tree ≡ some fs
      → scan_all key scan expired tree p ≡ scanned p'
      → (map forgotten p'.findings ≡ map forgotten p.findings ++ fs)
        × All IsFaithful p'.spans.entries
  unfolding scan_all reference
  scan_all-from textual [] p p' fs ok r e =
      subst
        (λ (q : Progress).
          (map forgotten q.findings ≡ map forgotten p.findings ++ fs)
          × All IsFaithful q.spans.entries)
        (scanned_injective p p' e)
        (
          subst (λ xs. map forgotten p.findings ≡ map forgotten p.findings ++ xs)
              (some-injective _ _ r) (sym (append-nil _)),
          ok,
        )
  scan_all-from textual (s ∷ ss) p p' fs ok r e = elim (ScanResult-cases (scan s)) [
    | inl (why, bad) ↦ absurd (none-some (rw (reference, bad) at r))
    | inr (gs, good) ↦ elim (Option-cases (reference scan ss)) [
      | inl bad ↦ absurd (none-some (rw (reference, good, bad) at r))
      | inr (rest, more) ↦ elim (Bool-cases (expired (length ss))) [
        | inl late ↦ absurd (interrupted-scanned _ _ p' (rw (scan_all, late) at e))
        | inr on_time ↦
            let (q, (one, (adds, faithful))) = scan_one-reference textual s gs p ok good in
            let (all, kept) =
              scan_all-from textual ss q p' rest faithful more (rw (scan_all, on_time, one) at e) in
            (
              all
                  ∙ ap (λ xs. xs ++ rest) adds
                  ∙ append_assoc (map forgotten p.findings) (map (reanchored s) gs) rest
                  ∙ ap (λ xs. map forgotten p.findings ++ xs)
                      (some-injective _ _ (rw (reference, good, more) at r)),
              kept,
            )
      ]
    ]
  ]

  -- Where spans whose texts have one key have the same findings, a scan through a faithful cache
  -- finds what the scans of all spans find, apart from detector ids and stages, and leaves the cache
  -- faithful.
  pub scan_all-reference :
      IsTextual
      → (tree : List Span) (spans : Cache (List Detection)) (p : Progress) (fs : List Detection)
      → All IsFaithful spans.entries
      → reference scan tree ≡ some fs
      → scan_all key scan expired tree (start spans) ≡ scanned p
      → (map forgotten p.findings ≡ fs) × All IsFaithful p.spans.entries
  scan_all-reference textual tree spans p fs ok r e =
      scan_all-from textual tree (start spans) p fs ok r e
