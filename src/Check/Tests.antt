-- ===== src/Check/Tests.antt =====
-- A run of the checker on two spans with one text, and its theorems at it.
use zero_trace.Prelude.{ℕ, ◌≤◌, String, ◌≡◌, refl, Bool, false, some, none, List, [], ◌∷◌, map, All}
use mathlib.Core.Path.{subst}
use zero_trace.Policy.{outbound}
use zero_trace.Cache.Lru.{Cache, find, without, evict, lookup, store}
use zero_trace.Check.Detection.{Detection, deterministic, context}
use zero_trace.Spans.{Origin, Span}
use zero_trace.Spans.Tree.{total_chars}
use zero_trace.Check.Covered.{Covers}
use zero_trace.Check.Loop.{
  closed, Config, green, ScanResult, found, Progress, scanned, start, reanchored, scan_all,
  top_confidence, verdict_among, verdict_of, make_verdict, concluded, check,
}
use zero_trace.Check.Green.{IsHarmless, check-green}
use zero_trace.Check.Cached.{forgotten, reference, IsFaithful, IsTextual, scan_all-reference}

-- A finding that stays below the amber band.
abbrev hint : Span → Detection
hint s = record {
  span_path = s.path;
  start = 0;
  end = 1;
  entity_class = "HIGH_ENTROPY_STRING";
  confidence = 20;
  leg = s.leg;
  detector_id = some 7;
  detector_name = "entropy";
  stage = "S0";
  tier = deterministic;
  advisory_only = false;
}

abbrev scan : Span → ScanResult
scan s = found (hint s ∷ [])

abbrev key : List ℕ → String
key text = "k"

abbrev expired : ℕ → Bool
expired left = false

abbrev span : String → Span
span path = record {
  path = path;
  text = 120 ∷ [];
  origin = Origin.user;
  bytes = some (0, 1);
  parent_path = none;
  parent_char_offset = 0;
  leg = outbound;
}

abbrev tree : List Span
tree = span "a" ∷ span "b" ∷ []

abbrev config : Config
config = record {
  amber_low = 35;
  amber_high = 75;
  max_tier = context;
  fail = closed;
  max_request_chars = 2000000;
}

abbrev spans : Cache (List Detection)
spans = record { entries = []; max = 10; hits = 0; misses = 0 }

-- The first span is scanned, the second is answered by the cache.
abbrev progress : Progress
progress = record {
  findings =
      hint (span "a")
      ∷ record {
        span_path = "b";
        start = 0;
        end = 1;
        entity_class = "HIGH_ENTROPY_STRING";
        confidence = 20;
        leg = outbound;
        detector_id = none;
        detector_name = "entropy";
        stage = "S0";
        tier = deterministic;
        advisory_only = false;
      }
      ∷ [];
  hits = 1;
  misses = 1;
  spans = record { entries = ("k", hint (span "a") ∷ []) ∷ []; max = 10; hits = 1; misses = 1 };
}

tree_is_scanned : scan_all key scan expired tree (start spans) ≡ scanned progress
unfolding scan_all lookup store find without evict reanchored
tree_is_scanned = refl

tree_is_green : (check key scan expired config tree spans).0.verdict ≡ green
unfolding check total_chars scan_all lookup store find without evict reanchored concluded
    make_verdict verdict_of verdict_among top_confidence
tree_is_green = refl

-- A nested span is scanned and not counted.
abbrev nested : Span
nested = record (span "a$.x") { parent_path = some "a" }

nested_is_not_counted :
    check key scan expired (record config { max_request_chars = 1 }) (span "a" ∷ nested ∷ []) spans
    ≡ concluded
        (record config { max_request_chars = 1 })
        (scan_all key scan expired (span "a" ∷ nested ∷ []) (start spans))
unfolding check total_chars
nested_is_not_counted = refl

check-green_example :
    (total_chars tree ≤ config.max_request_chars)
    × (Covers key scan expired tree spans.entries tree
          (check key scan expired config tree spans).0.findings
        × All (IsHarmless config) (check key scan expired config tree spans).0.findings)
check-green_example = check-green key scan expired config tree spans refl tree_is_green

found_injective : (fs gs : List Detection) → found fs ≡ found gs → fs ≡ gs
found_injective fs gs e = cc

scan-IsTextual : IsTextual key scan expired
unfolding reanchored
scan-IsTextual = record {
  same_key = λ s t fs gs same e e'.
      subst (λ xs. map (reanchored t) xs ≡ map (reanchored t) gs) (found_injective _ fs e)
        (subst (λ xs. map (reanchored t) (hint s ∷ []) ≡ map (reanchored t) xs)
          (found_injective _ gs e') refl);
  own_place = λ s fs e.
      subst (λ xs. map forgotten xs ≡ map (reanchored s) xs) (found_injective _ fs e) refl;
}

abbrev both_found : List Detection
unfolding reanchored
both_found = reanchored (span "a") (hint (span "a")) ∷ reanchored (span "b") (hint (span "b")) ∷ []

tree_is_found : reference scan tree ≡ some both_found
unfolding reference both_found
tree_is_found = refl

scan_all-reference_example :
    (map forgotten progress.findings ≡ both_found)
    × All (IsFaithful key scan expired) progress.spans.entries
scan_all-reference_example =
    scan_all-reference key scan expired scan-IsTextual tree spans progress both_found tt
      tree_is_found tree_is_scanned
