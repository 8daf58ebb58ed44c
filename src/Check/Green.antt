-- ===== src/Check/Green.antt =====
-- What a green verdict of gateway/base/checker.py means under the stance `closed`.
use zero_trace.Prelude.{
  ℕ, ◌<◌, ◌≤◌, String, ◌≡◌, refl, sym, ◌∙◌, ◌⊎◌, inl, inr, Bool, true, List, [], ◌∷◌, arith, ltb,
  leb, All, Bool-cases, if_both, ltb→lt,
}
use zero_trace.Cache.Lru.{Cache}
use zero_trace.Check.Detection.{Detection, Tier, cache, context}
use zero_trace.Spans.{Span}
use zero_trace.Spans.Tree.{total_chars}
use zero_trace.Check.Covered.{Covers, scan_all-start}
use zero_trace.Check.Loop.{
  closed, Config, Degraded, payload_too_large, checker_timeout, green, amber, red, budget_exceeded,
  scan_too_large, ScanResult, AllScanned, scanned, interrupted, Progress, start, scan_all,
  enforceable, top_confidence, verdict_among, verdict_of, make_verdict, make_degraded, concluded,
  check,
}

-- The finding is advisory, or its confidence is below the amber band.
abbrev pub IsHarmless : Config → Detection → Type 0
IsHarmless c f = (f.advisory_only ≡ true) ⊎ (f.confidence < c.amber_low)

red-green : red ≡ green → ⊥
red-green e = cc

amber-green : amber ≡ green → ⊥
amber-green e = cc

top_confidence-bounds :
    (m : ℕ) (fs : List Detection)
    → (m ≤ top_confidence m fs) × All (λ (f : Detection). f.confidence ≤ top_confidence m fs) fs
unfolding top_confidence
top_confidence-bounds m [] = (omega arith, tt)
top_confidence-bounds m (f ∷ fs) =
    if_both
      (λ x.
        (m ≤ top_confidence x fs)
        × ((f.confidence ≤ top_confidence x fs)
            × All (λ (g : Detection). g.confidence ≤ top_confidence x fs) fs))
      (ltb m f.confidence) f.confidence m
      (λ more.
        let (le, all) = top_confidence-bounds f.confidence fs in
        (omega (arith, le, ltb→lt m f.confidence more), (le, all)))
      (λ less. let (le, all) = top_confidence-bounds m fs in (le, (ground (arith, le, less), all)))

below_top :
    (low top : ℕ) (fs : List Detection)
    → top < low
    → All (λ (f : Detection). f.confidence ≤ top) fs
    → All (λ (f : Detection). f.confidence < low) fs
below_top low top [] h all = tt
below_top low top (f ∷ fs) h (le, all) = (omega (arith, h, le), below_top low top fs h all)

verdict_among-low :
    (c : Config) (fs : List Detection)
    → (verdict_among c fs).0 ≡ green
    → All (λ (f : Detection). f.confidence < c.amber_low) fs
unfolding verdict_among
verdict_among-low c [] e = tt
verdict_among-low c (f ∷ fs) e =
    let top = top_confidence f.confidence fs in
    let (le, all) = top_confidence-bounds f.confidence fs in
    elim (Bool-cases (leb c.amber_high top)) [
      | inl high ↦ absurd (red-green (rw (verdict_among, high) at e))
      | inr not_high ↦ elim (Bool-cases (leb c.amber_low top)) [
        | inl mid ↦ absurd (amber-green (rw (verdict_among, not_high, mid) at e))
        | inr low ↦
            let small : top < c.amber_low = ground (arith, low) in
            below_top c.amber_low top (f ∷ fs) small (le, all)
      ]
    ]

harmless :
    (c : Config) (fs : List Detection)
    → All (λ (f : Detection). f.confidence < c.amber_low) (enforceable fs)
    → All (IsHarmless c) fs
harmless c [] all = tt
harmless c (f ∷ fs) all = elim (Bool-cases f.advisory_only) [
  | inl advisory ↦ (inl advisory, harmless c fs (rw advisory at all))
  | inr acts ↦ (let (low, rest) = rw acts at all in (inr low, harmless c fs rest))
]

degraded-red :
    (c : Config) (reason : Degraded) (tier : Tier)
    → c.fail ≡ closed
    → (make_degraded c reason tier).verdict ≡ red
unfolding make_degraded
degraded-red c reason tier shut = rw shut refl

concluded-green :
    (c : Config) (a : AllScanned)
    → c.fail ≡ closed
    → (concluded c a).0.verdict ≡ green
    → (p : Progress) × ((a ≡ scanned p) × All (IsHarmless c) p.findings)
unfolding concluded make_verdict verdict_of
concluded-green c (scanned p) shut e =
    (p, (refl, harmless c p.findings (verdict_among-low c (enforceable p.findings) e)))
concluded-green c (interrupted budget_exceeded k) shut e =
    absurd (red-green (sym (degraded-red c checker_timeout context shut) ∙ e))
concluded-green c (interrupted scan_too_large k) shut e =
    absurd (red-green (sym (degraded-red c payload_too_large cache shut) ∙ e))

concluded-findings :
    (c : Config) (a : AllScanned) (p : Progress)
    → a ≡ scanned p
    → (concluded c a).0.findings ≡ p.findings
unfolding concluded make_verdict
concluded-findings c a p e = rw e

-- Under the stance `closed`, a green verdict means that the text of the spans that are not nested was
-- within the limit; that the findings are one block for each span of the tree, in order, which the
-- span's own scan gave, or the cache under the key of its text, from before or from a span of the
-- tree; that the deadline had not passed at any span; and that each finding is advisory or has a
-- confidence below the amber band.
pub check-green :
    (key : List ℕ → String) (scan : Span → ScanResult) (expired : ℕ → Bool) (c : Config)
    (tree : List Span) (spans : Cache (List Detection))
    → c.fail ≡ closed
    → (check key scan expired c tree spans).0.verdict ≡ green
    → (total_chars tree ≤ c.max_request_chars)
      × (Covers key scan expired tree spans.entries tree
            (check key scan expired c tree spans).0.findings
          × All (IsHarmless c) (check key scan expired c tree spans).0.findings)
unfolding check
check-green key scan expired c tree spans shut e =
    elim (Bool-cases (ltb c.max_request_chars (total_chars tree))) [
      | inl large ↦
          absurd
            (red-green (sym (degraded-red c payload_too_large cache shut) ∙ rw (check, large) at e))
      | inr fits ↦
          let result = scan_all key scan expired tree (start spans) in
          let (p, (ends, harmless_)) = concluded-green c result shut (rw (check, fits) at e) in
          let same : (concluded c result).0.findings ≡ p.findings =
            concluded-findings c result p ends in
          (
            ground (arith, fits),
            rw (check, fits, same) (scan_all-start key scan expired tree spans p ends, harmless_),
          )
    ]
