-- ===== src/Scan/Chunks.antt =====
-- `_scan_chunked` of gateway/base/scanner.py. The scan of one chunk is a parameter here: it is
-- `scan_span`, whose candidates come from the automaton and the regular expression.
use zero_trace.Prelude.{
  ℕ, zero, suc, ◌+◌, Option, none, some, List, [], ◌∷◌, ◌++◌, map, ltb, length, slice,
  if◌then◌else◌,
}
use zero_trace.Scan.{Finding}
use zero_trace.Scan.Dedupe.{dedupe}

-- The chunks of the loop from a position: each has its start and its end. A step of zero would loop
-- for ever; here it runs out of fuel, and none is returned.
unfoldable pub chunks_from : ℕ → ℕ → ℕ → ℕ → ℕ → Option (List (ℕ × ℕ))
chunks_from zero step overlap size pos = if ltb pos size then none else some []
chunks_from (suc fuel) step overlap size pos =
    if ltb pos size
    then elim (chunks_from fuel step overlap size (pos + step)) [
      | none ↦ none
      | some rest ↦ some ((pos, pos + step + overlap) ∷ rest)
    ]
    else some []

unfoldable pub chunks : ℕ → ℕ → ℕ → Option (List (ℕ × ℕ))
unfolding chunks_from
chunks step overlap size = chunks_from size step overlap size 0

-- A finding of a chunk, at its place in the text.
abbrev pub shifted : ℕ → Finding → Finding
shifted pos f = record f { start = f.start + pos; end = f.end + pos }

module _ (scan : List ℕ → List Finding) where
  unfoldable pub scan_pieces : List ℕ → List (ℕ × ℕ) → List Finding
  scan_pieces text [] = []
  scan_pieces text ((pos, end) ∷ cs) =
      map (shifted pos) (scan (slice text pos end)) ++ scan_pieces text cs

  unfoldable pub scan_chunked : ℕ → ℕ → List ℕ → Option (List Finding)
  unfolding scan_pieces chunks
  scan_chunked step overlap text = elim (chunks step overlap (length text)) [
    | none ↦ none
    | some cs ↦ some (dedupe (scan_pieces text cs))
  ]
