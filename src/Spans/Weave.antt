-- ===== src/Spans/Weave.antt =====
-- What writing patches from the last to the first, as in gateway/spans/model.py, leaves of a list:
-- every gap between the patches as it was, and the new content in each patch's place.
use mathlib.Core.List.{append-nil, append_assoc}
use zero_trace.Prelude.{
  ℕ, ◌≤◌, ◌≡◌, refl, sym, ap, ◌∙◌, List, [], ◌∷◌, ◌++◌, arith, length, take, drop, take-take_append,
  drop-take_append, take-length,
}
use zero_trace.Spans.Splice.{Patch, splice, splice_sorted}

-- Patches from the last to the first, each ending before `k` and not behind its own start.
abbrev pub Separate : ℕ → List Patch → Type 0
Separate k [] = Unit
Separate k (p ∷ ps) = (p.start ≤ p.end) × (p.end ≤ k) × Separate p.start ps

-- The first `k` elements with the patches put in.
unfoldable pub weave : List ℕ → ℕ → List Patch → List ℕ
weave raw k [] = take k raw
weave raw k (p ∷ ps) = weave raw p.start ps ++ (p.encoded ++ drop p.end (take k raw))

splice-take :
    (raw rest : List ℕ) (k : ℕ) (p : Patch)
    → p.start ≤ p.end
    → p.end ≤ k
    → k ≤ length raw
    → splice (take k raw ++ rest) p
      ≡ take p.start raw ++ (p.encoded ++ (drop p.end (take k raw) ++ rest))
splice-take raw rest k p h l b =
    rw (take-take_append p.start k raw rest (omega arith) b, drop-take_append p.end k raw rest l b)

splice_sorted-take :
    (raw rest : List ℕ) (k : ℕ) (ps : List Patch)
    → k ≤ length raw
    → Separate k ps
    → splice_sorted (take k raw ++ rest) ps ≡ weave raw k ps ++ rest
unfolding splice_sorted weave
splice_sorted-take raw rest k [] b s = refl
splice_sorted-take raw rest k (p ∷ ps) b s =
    ap (λ out. splice_sorted out ps) (splice-take raw rest k p s.0 s.1 b)
    ∙ splice_sorted-take raw (p.encoded ++ (drop p.end (take k raw) ++ rest)) p.start ps
        (omega arith) s.2
    ∙ simp append_assoc

-- Patches that are separate are written exactly in their places, and nothing else changes.
pub splice_sorted-weave :
    (raw : List ℕ) (ps : List Patch)
    → Separate (length raw) ps
    → splice_sorted raw ps ≡ weave raw (length raw) ps
splice_sorted-weave raw ps s =
    ap (λ out. splice_sorted out ps)
      (sym (take-length (length raw) raw (omega arith)) ∙ sym (append-nil _))
    ∙ splice_sorted-take raw [] (length raw) ps (omega arith) s
    ∙ append-nil _
