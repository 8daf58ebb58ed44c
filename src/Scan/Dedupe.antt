-- ===== src/Scan/Dedupe.antt =====
-- `_dedupe` of gateway/base/scanner.py.
use zero_trace.Prelude.{
  Bool, ◌&&◌, ◌||◌, List, [], ◌∷◌, ◌==◌, ltb, str_eq, codes, codes_less, if◌then◌else◌,
}
use zero_trace.Scan.{Finding}

-- `key`: path, range and class.
abbrev pub same_key : Finding → Finding → Bool
same_key f g =
    str_eq f.span_path g.span_path
    && ((f.start == g.start) && ((f.end == g.end) && str_eq f.entity_class g.entity_class))

-- One iteration: `best` keeps the place of a key that it has.
unfoldable pub improve : Finding → List Finding → List Finding
improve f [] = f ∷ []
improve f (g ∷ gs) =
    let rest = improve f gs in
    if same_key g f then (if ltb g.confidence f.confidence then f ∷ gs else g ∷ gs) else g ∷ rest

unfoldable pub best_of : List Finding → List Finding → List Finding
unfolding improve
best_of [] best = best
best_of (f ∷ fs) best = best_of fs (improve f best)

-- The order of `(span_path, start)`.
abbrev pub before : Finding → Finding → Bool
before f g =
    codes_less (codes f.span_path) (codes g.span_path)
    || (str_eq f.span_path g.span_path && ltb f.start g.start)

unfoldable pub insert_finding : Finding → List Finding → List Finding
insert_finding f [] = f ∷ []
insert_finding f (g ∷ gs) =
    let rest = insert_finding f gs in if before g f then g ∷ rest else f ∷ g ∷ gs

unfoldable pub sort_findings : List Finding → List Finding
unfolding insert_finding
sort_findings [] = []
sort_findings (f ∷ fs) = insert_finding f (sort_findings fs)

unfoldable pub dedupe : List Finding → List Finding
unfolding best_of sort_findings
dedupe fs = sort_findings (best_of fs [])
