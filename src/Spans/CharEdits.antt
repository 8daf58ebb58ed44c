-- ===== src/Spans/CharEdits.antt =====
-- `_apply_char_edits` of gateway/spans/model.py.
use zero_trace.Prelude.{ℕ, Bool, List, [], ◌∷◌, ◌++◌, ltb, take, drop, if◌then◌else◌}
use zero_trace.Spans.{Edit, Result, ok, err, overlapping_edits}

-- `sorted(edits, key=start, reverse=True)` is stable: among equal starts the earlier stays first.
unfoldable pub insert_edit : Edit → List Edit → List Edit
insert_edit e [] = e ∷ []
insert_edit e (f ∷ fs) = if ltb e.start f.start then f ∷ insert_edit e fs else e ∷ f ∷ fs

unfoldable pub sort_edits : List Edit → List Edit
unfolding insert_edit
sort_edits [] = []
sort_edits (e ∷ es) = insert_edit e (sort_edits es)

-- The loop that compares neighbours in the sorted list.
unfoldable pub check_overlap : List Edit → Bool
check_overlap [] = Bool.false
check_overlap (e ∷ []) = Bool.false
check_overlap (e ∷ f ∷ fs) =
    let rest = check_overlap (f ∷ fs) in if ltb e.start f.end then Bool.true else rest

-- `out[: e.start] + e.replacement + out[e.end :]`
abbrev pub splice_text : List ℕ → Edit → List ℕ
splice_text out e = take e.start out ++ (e.replacement ++ drop e.end out)

unfoldable pub apply_sorted : List ℕ → List Edit → List ℕ
apply_sorted out [] = out
apply_sorted out (e ∷ es) = apply_sorted (splice_text out e) es

unfoldable pub apply_char_edits : List ℕ → List Edit → Result (List ℕ)
unfolding sort_edits check_overlap apply_sorted
apply_char_edits text edits =
    let ordered = sort_edits edits in
    if check_overlap ordered then err overlapping_edits else ok (apply_sorted text ordered)
