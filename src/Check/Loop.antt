-- ===== src/Check/Loop.antt =====
-- `Checker` of gateway/base/checker.py. The scan of a span, the key of a text and the clock are
-- parameters; times are left out of the results.
use zero_trace.Prelude.{
  ℕ, ◌+◌, String, Bool, true, false, not, Option, none, some, List, [], ◌∷◌, ◌++◌, map, ltb, leb,
  length, keep, if◌then◌else◌,
}
use zero_trace.Spans.{Span}
use zero_trace.Spans.Tree.{total_chars}
use zero_trace.Cache.Lru.{Cache, lookup, store}
use zero_trace.Check.Detection.{Tier, cache, context, rank, stage_of, Detection}

pub data Fail : Type 0 where
  closed open_ : Fail

-- `CheckerConfig` with the limit of its `limits` that is read here; bounds in hundredths.
pub record Config : Type 0 where
  pub amber_low : ℕ
  pub amber_high : ℕ
  pub max_tier : Tier
  pub fail : Fail
  pub max_request_chars : ℕ

pub data Verdict : Type 0 where
  green amber red : Verdict

pub data Degraded : Type 0 where
  payload_too_large checker_timeout amber_no_tier3 : Degraded

pub record CheckResult : Type 0 where
  pub verdict : Verdict
  pub confidence : ℕ
  pub tier_reached : Tier
  pub findings : List Detection
  pub degraded : Option Degraded
  pub cache_hits : ℕ
  pub cache_misses : ℕ

-- The new `Finding` for a cached one: what is not passed is `detector_id` and `stage`, which
-- `__post_init__` then derives from the tier.
unfoldable pub reanchored : Span → Detection → Detection
reanchored s f = record {
  span_path = s.path;
  start = f.start;
  end = f.end;
  entity_class = f.entity_class;
  confidence = f.confidence;
  leg = s.leg;
  detector_id = none;
  detector_name = f.detector_name;
  stage = stage_of f.tier;
  tier = f.tier;
  advisory_only = f.advisory_only;
}

-- The exceptions of the scan.
pub data Stop : Type 0 where
  budget_exceeded scan_too_large : Stop

pub data ScanResult : Type 0 where
  found : List Detection → ScanResult
  stopped : Stop → ScanResult

pub record Progress : Type 0 where
  pub findings : List Detection
  pub hits : ℕ
  pub misses : ℕ
  pub spans : Cache (List Detection)

pub data AllScanned : Type 0 where
  scanned : Progress → AllScanned
  interrupted : Stop → Cache (List Detection) → AllScanned

-- `key` is `cache_key` of a text; `scan` is `scan_span`; `expired` is whether the deadline has passed
-- when so many spans are left.
module _ (key : List ℕ → String) (scan : Span → ScanResult) (expired : ℕ → Bool) where
  -- One span, its deadline met.
  unfoldable pub scan_one : Span → Progress → AllScanned
  unfolding lookup store reanchored
  scan_one s p =
      let (cached, looked) = lookup (key s.text) p.spans in
      elim cached [
        | some fs ↦ scanned (record {
          findings = p.findings ++ map (reanchored s) fs;
          hits = p.hits + 1;
          misses = p.misses;
          spans = looked;
        })
        | none ↦ elim (scan s) [
          | stopped why ↦ interrupted why looked
          | found fs ↦ scanned (record {
            findings = p.findings ++ fs;
            hits = p.hits;
            misses = p.misses + 1;
            spans = store (key s.text) fs looked;
          })
        ]
      ]

  -- `_scan_all`
  unfoldable pub scan_all : List Span → Progress → AllScanned
  unfolding scan_one
  scan_all [] p = scanned p
  scan_all (s ∷ ss) p =
      if expired (length ss) then interrupted budget_exceeded p.spans else elim (scan_one s p) [
        | interrupted why c ↦ interrupted why c
        | scanned p' ↦ scan_all ss p'
      ]

-- `max` of the confidences, of at least one.
unfoldable pub top_confidence : ℕ → List Detection → ℕ
top_confidence m [] = m
top_confidence m (f ∷ fs) = top_confidence (if ltb m f.confidence then f.confidence else m) fs

abbrev pub enforceable : List Detection → List Detection
enforceable fs = keep (λ (f : Detection). not f.advisory_only) fs

unfoldable pub verdict_among : Config → List Detection → Verdict × ℕ
unfolding top_confidence
verdict_among c [] = (green, 100)
verdict_among c (f ∷ fs) =
    let top = top_confidence f.confidence fs in
    if leb c.amber_high top
    then (red, top)
    else if leb c.amber_low top
    then (amber, top)
    else (green, top)

-- The verdict and the confidence of `_verdict`.
unfoldable pub verdict_of : Config → List Detection → Verdict × ℕ
unfolding verdict_among
verdict_of c fs = verdict_among c (enforceable fs)

abbrev pub is_amber : Verdict → Bool
is_amber amber = true
is_amber _ = false

-- `_verdict`
unfoldable pub make_verdict : Config → Progress → CheckResult
unfolding verdict_of
make_verdict c p =
    let (verdict, confidence) = verdict_of c p.findings in
    record {
      verdict = verdict;
      confidence = confidence;
      tier_reached = c.max_tier;
      findings = p.findings;
      degraded =
          if is_amber verdict
          then (if ltb (rank c.max_tier) 3 then some amber_no_tier3 else none)
          else none;
      cache_hits = p.hits;
      cache_misses = p.misses;
    }

-- `_degraded`
unfoldable pub make_degraded : Config → Degraded → Tier → CheckResult
make_degraded c reason tier = record {
  verdict = elim c.fail [ closed ↦ red | open_ ↦ green ];
  confidence = 0;
  tier_reached = tier;
  findings = [];
  degraded = some reason;
  cache_hits = 0;
  cache_misses = 0;
}

abbrev pub start : Cache (List Detection) → Progress
start c = record { findings = []; hits = 0; misses = 0; spans = c }

unfoldable pub concluded : Config → AllScanned → CheckResult × Cache (List Detection)
unfolding make_verdict make_degraded
concluded c (scanned p) = (make_verdict c p, p.spans)
concluded c (interrupted budget_exceeded cache') = (make_degraded c checker_timeout context, cache')
concluded c (interrupted scan_too_large cache') = (make_degraded c payload_too_large cache, cache')

-- `check`, with the cache that it leaves.
unfoldable pub check :
    (List ℕ → String)
    → (Span → ScanResult)
    → (ℕ → Bool)
    → Config
    → List Span
    → Cache (List Detection)
    → CheckResult × Cache (List Detection)
unfolding total_chars scan_all concluded make_degraded
check key scan expired c tree spans =
    if ltb c.max_request_chars (total_chars tree)
    then (make_degraded c payload_too_large cache, spans)
    else concluded c (scan_all key scan expired tree (start spans))
