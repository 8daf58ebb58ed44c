-- ===== src/Spans/Tests.antt =====
-- Edits of a text, and the theorem on them at that run.
use zero_trace.Prelude.{ℕ, ◌≡◌, refl, List, [], ◌∷◌, map, arith, codes, length}
use zero_trace.Spans.{Edit, ok, err, overlapping_edits}
use zero_trace.Spans.CharEdits.{sort_edits, apply_char_edits}
use zero_trace.Spans.Weave.{Separate, weave}
use zero_trace.Spans.Edited.{as_patch, apply_char_edits-weave}

abbrev edit : ℕ → ℕ → List ℕ → Edit
edit a b r = record { span_path = "messages[0].content"; start = a; end = b; replacement = r }

abbrev line : List ℕ
line = codes "ring 98 or 77 today"

abbrev edits : List Edit
edits = edit 5 7 (codes "<A>") ∷ edit 11 13 (codes "<B>") ∷ []

edits_are_applied : apply_char_edits line edits ≡ ok (codes "ring <A> or <B> today")
unfolding apply_char_edits
edits_are_applied = refl

overlap_is_refused : apply_char_edits line (edit 5 8 [] ∷ edit 7 9 [] ∷ []) ≡ err overlapping_edits
unfolding apply_char_edits
overlap_is_refused = refl

apply_char_edits-weave_example :
    Separate (length line) (map as_patch (sort_edits edits))
    × (codes "ring <A> or <B> today" ≡ weave line (length line) (map as_patch (sort_edits edits)))
apply_char_edits-weave_example =
    apply_char_edits-weave line (codes "ring <A> or <B> today") edits edits_are_applied
      ((omega arith, omega arith), ((omega arith, omega arith), tt))
