-- ===== src/Spans/Edited.antt =====
-- What `_apply_char_edits` and `serialise` of gateway/spans/model.py produce.
use zero_trace.Prelude.{
  ℕ, ◌≤◌, ◌≡◌, refl, ◌∙◌, false, List, [], ◌∷◌, map, arith, length, All, ltb, Bool-cases, inl, inr,
}
use zero_trace.Spans.{Edit, ok}
use zero_trace.Spans.CharEdits.{
  insert_edit, sort_edits, check_overlap, splice_text, apply_sorted, apply_char_edits,
}
use zero_trace.Spans.Splice.{Patch, splice_sorted}
use zero_trace.Spans.Weave.{Separate, weave, splice_sorted-weave}

-- An edit as a patch of the text.
abbrev pub as_patch : Edit → Patch
as_patch e = record { start = e.start; end = e.end; encoded = e.replacement }

abbrev pub InBounds : List ℕ → Edit → Type 0
InBounds text e = (e.start ≤ e.end) × (e.end ≤ length text)

apply_sorted-splice :
    (text : List ℕ) (es : List Edit) → apply_sorted text es ≡ splice_sorted text (map as_patch es)
unfolding apply_sorted splice_sorted
apply_sorted-splice text [] = refl
apply_sorted-splice text (e ∷ es) = apply_sorted-splice (splice_text text e) es

module _ {ℓ} (P : Edit → Type ℓ) where
  All-insert_edit : (e : Edit) (es : List Edit) → P e → All P es → All P (insert_edit e es)
  unfolding insert_edit
  All-insert_edit e [] h hs = (h, tt)
  All-insert_edit e (f ∷ fs) h hs = elim (Bool-cases (ltb e.start f.start)) [
    | inl before ↦ rw before (hs.0, All-insert_edit e fs h hs.1)
    | inr after ↦ rw after (h, hs)
  ]

  All-sort_edits : (es : List Edit) → All P es → All P (sort_edits es)
  unfolding sort_edits
  All-sort_edits [] hs = tt
  All-sort_edits (e ∷ es) hs = All-insert_edit e (sort_edits es) hs.0 (All-sort_edits es hs.1)

check_overlap-Separate :
    (text : List ℕ) (k : ℕ) (e : Edit) (es : List Edit)
    → check_overlap (e ∷ es) ≡ false
    → e.end ≤ k
    → All (InBounds text) (e ∷ es)
    → Separate k (map as_patch (e ∷ es))
unfolding check_overlap
check_overlap-Separate text k e [] h l b = (b.0.0, l, tt)
check_overlap-Separate text k e (f ∷ fs) h l b =
    (b.0.0, l, check_overlap-Separate text e.start f fs (ground arith) (ground arith) b.1)

sorted-Separate :
    (text : List ℕ) (es : List Edit)
    → check_overlap es ≡ false
    → All (InBounds text) es
    → Separate (length text) (map as_patch es)
sorted-Separate text [] h b = tt
sorted-Separate text (e ∷ es) h b = check_overlap-Separate text (length text) e es h b.0.1 b

accepted-edits :
    (text out : List ℕ) (edits : List Edit)
    → apply_char_edits text edits ≡ ok out
    → (check_overlap (sort_edits edits) ≡ false) × (out ≡ apply_sorted text (sort_edits edits))
unfolding apply_char_edits
accepted-edits text out edits h = ground arith

-- Edits in bounds that are accepted do not overlap, and the result is the text with every gap
-- between the edited ranges unchanged and each replacement in its range's place.
pub apply_char_edits-weave :
    (text out : List ℕ) (edits : List Edit)
    → apply_char_edits text edits ≡ ok out
    → All (InBounds text) edits
    → Separate (length text) (map as_patch (sort_edits edits))
      × (out ≡ weave text (length text) (map as_patch (sort_edits edits)))
apply_char_edits-weave text out edits h b =
    let (apart, e) = accepted-edits text out edits h in
    let s =
      sorted-Separate text (sort_edits edits) apart (All-sort_edits (InBounds text) edits b) in
    (
      s,
      e
          ∙ apply_sorted-splice text (sort_edits edits)
          ∙ splice_sorted-weave text (map as_patch (sort_edits edits)) s,
    )
