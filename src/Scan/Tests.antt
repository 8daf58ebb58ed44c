-- ===== src/Scan/Tests.antt =====
-- Runs of `_dedupe` and of the chunk loop, and their theorems at them.
use zero_trace.Prelude.{
  ℕ, ◌+◌, ◌≤◌, ◌<◌, String, ◌≡◌, refl, false, some, List, [], ◌∷◌, arith, All, Any,
}
use zero_trace.Scan.{Finding}
use zero_trace.Scan.Dedupe.{dedupe}
use zero_trace.Scan.Chunks.{chunks}
use zero_trace.Scan.Best.{Stands, DistinctKeys}
use zero_trace.Scan.Sorted.{dedupe-DistinctKeys}
use zero_trace.Scan.Cover.{Within, chunks-Within}

abbrev finding : ℕ → String → ℕ → Finding
finding start c confidence = record {
  span_path = "messages[0].content";
  start = start;
  end = start + 10;
  entity_class = c;
  confidence = confidence;
  tier = 1;
  detector_name = c;
  advisory_only = false;
}

abbrev found : List Finding
found =
    finding 40 "PAN" 90
    ∷ finding 5 "AADHAAR" 78
    ∷ finding 5 "AADHAAR" 97
    ∷ finding 5 "PHONE" 60
    ∷ []

found_once : dedupe found ≡ finding 5 "AADHAAR" 97 ∷ finding 5 "PHONE" 60 ∷ finding 40 "PAN" 90 ∷ []
unfolding dedupe
found_once = refl

dedupe-DistinctKeys_example :
    DistinctKeys (dedupe found)
    × All (λ g. Any (λ f. f ≡ g) found) (dedupe found)
    × All (λ f. Any (Stands f) (dedupe found)) found
dedupe-DistinctKeys_example = dedupe-DistinctKeys found

three_chunks : chunks 10 4 25 ≡ some ((0, 14) ∷ (10, 24) ∷ (20, 34) ∷ [])
unfolding chunks
three_chunks = refl

chunks-Within_example :
    (cs : List (ℕ × ℕ)) × (chunks 10 4 25 ≡ some cs)
    × ((a b : ℕ) → a < 25 → b ≤ a + 4 → Any (Within a b) cs)
chunks-Within_example = chunks-Within 10 4 25 (omega arith)
