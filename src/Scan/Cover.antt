-- ===== src/Scan/Cover.antt =====
-- What the chunks of `_scan_chunked` of gateway/base/scanner.py cover.
use mathlib.Core.Path.{subst}
use mathlib.Core.Option.{some-injective}
use zero_trace.Prelude.{
  lt→ltb, ℕ, zero, suc, ◌+◌, ◌≤◌, ◌<◌, ◌≡◌, refl, some, List, [], ◌∷◌, arith, ltb, Any, Bool-cases,
  Option-cases, inl, inr,
}
use zero_trace.Scan.Chunks.{chunks_from, chunks}

-- A range that lies in a chunk.
abbrev pub Within : ℕ → ℕ → ℕ × ℕ → Type 0
Within a b (start, end) = (start ≤ a) × (b ≤ end)

chunks_from-ends :
    (fuel step overlap size pos : ℕ)
    → 1 ≤ step
    → size ≤ pos + fuel
    → (cs : List (ℕ × ℕ)) × (chunks_from fuel step overlap size pos ≡ some cs)
unfolding chunks_from
chunks_from-ends zero step overlap size pos s f = ([], ground arith)
chunks_from-ends (suc fuel) step overlap size pos s f =
    let (rest, e) = chunks_from-ends fuel step overlap size (pos + step) s (omega arith) in
    elim (Bool-cases (ltb pos size)) [
      | inl more ↦ ((pos, pos + step + overlap) ∷ rest, rw (chunks_from, more, e) refl)
      | inr done ↦ ([], rw (chunks_from, done) refl)
    ]

chunks_from-Within :
    (fuel step overlap size pos a b : ℕ) (cs : List (ℕ × ℕ))
    → chunks_from fuel step overlap size pos ≡ some cs
    → 1 ≤ step
    → pos ≤ a
    → a < size
    → b ≤ a + overlap
    → Any (Within a b) cs
unfolding chunks_from
chunks_from-Within zero step overlap size pos a b cs e s p l o = absurd (ground arith)
chunks_from-Within (suc fuel) step overlap size pos a b cs e s p l o =
    elim (Option-cases (chunks_from fuel step overlap size (pos + step))) [
      | inl n ↦ absurd (ground arith)
      | inr (rest, r) ↦
          subst (Any (Within a b))
            (some-injective _ _ (rw (chunks_from, lt→ltb pos size (omega arith), r) at e))
            (elim (Bool-cases (ltb a (pos + step))) [
              | inl near ↦ inl (p, ground arith)
              | inr far ↦ inr (
                  chunks_from-Within fuel step overlap size (pos + step) a b rest r s (ground arith)
                    l o)
            ])
    ]

-- For a step of at least one the loop ends, and every range that starts in the text and is no longer
-- than the overlap lies whole in a chunk.
pub chunks-Within :
    (step overlap size : ℕ)
    → 1 ≤ step
    → (cs : List (ℕ × ℕ)) × (chunks step overlap size ≡ some cs)
      × ((a b : ℕ) → a < size → b ≤ a + overlap → Any (Within a b) cs)
unfolding chunks
chunks-Within step overlap size s =
    let (cs, e) = chunks_from-ends size step overlap size 0 s (omega arith) in
    (cs, e, λ a b l o. chunks_from-Within size step overlap size 0 a b cs e s (omega arith) l o)
