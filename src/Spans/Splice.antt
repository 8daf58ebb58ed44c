-- ===== src/Spans/Splice.antt =====
-- The byte splice of `serialise` in gateway/spans/model.py: patches sorted by start, last first,
-- each written over its range.
use zero_trace.Prelude.{ℕ, List, [], ◌∷◌, ◌++◌, ltb, take, drop, if◌then◌else◌}

pub record Patch : Type 0 where
  pub start : ℕ
  pub end : ℕ
  pub encoded : List ℕ

-- `patches.sort(key=start, reverse=True)`, stable.
unfoldable pub insert_patch : Patch → List Patch → List Patch
insert_patch p [] = p ∷ []
insert_patch p (q ∷ qs) = if ltb p.start q.start then q ∷ insert_patch p qs else p ∷ q ∷ qs

unfoldable pub sort_patches : List Patch → List Patch
unfolding insert_patch
sort_patches [] = []
sort_patches (p ∷ ps) = insert_patch p (sort_patches ps)

-- `out[byte_start:byte_end] = encoded`
abbrev pub splice : List ℕ → Patch → List ℕ
splice out p = take p.start out ++ (p.encoded ++ drop p.end out)

unfoldable pub splice_sorted : List ℕ → List Patch → List ℕ
splice_sorted out [] = out
splice_sorted out (p ∷ ps) = splice_sorted (splice out p) ps

unfoldable pub splice_all : List ℕ → List Patch → List ℕ
unfolding sort_patches splice_sorted
splice_all raw patches = splice_sorted raw (sort_patches patches)
