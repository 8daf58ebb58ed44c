-- ===== src/Spans/Tree.antt =====
-- `SpanTree` of gateway/spans/model.py: `by_path`, `replace`, `total_chars` and `serialise`.
use zero_trace.Prelude.{
  ℕ, ◌+◌, String, Bool, true, false, not, ◌&&◌, Option, none, some, List, [], ◌∷◌, ◌++◌, leb,
  str_eq, length, contains, is_nonempty, if◌then◌else◌,
}
use zero_trace.Spans.{Span, Edit, Result, ok, err, span_not_found, span_offset_error, ◌>>=◌}
use zero_trace.Spans.CharEdits.{apply_char_edits}
use zero_trace.Spans.Splice.{Patch, splice_all}

pub record SpanTree : Type 0 where
  pub raw : List ℕ
  pub spans : List Span
  pub edits : List Edit

-- `self._by_path.get(path)`: the dict keeps the last span of a path.
unfoldable pub find_span : String → List Span → Option Span
find_span path [] = none
find_span path (s ∷ ss) = elim (find_span path ss) [
  | some t ↦ some t
  | none ↦ if str_eq s.path path then some s else none
]

abbrev pub by_path : SpanTree → String → Option Span
by_path tree path = find_span path tree.spans

-- `not (0 <= start <= end <= len(span.text))`
abbrev pub out_of_bounds : ℕ → ℕ → Span → Bool
out_of_bounds start end span = not (leb start end && leb end (length span.text))

abbrev add_edit : SpanTree → Edit → SpanTree
add_edit tree e = record tree { edits = tree.edits ++ e ∷ [] }

-- The edit that `replace` records: on the span itself, or on the parent of a nested span.
unfoldable pub locate : SpanTree → Span → String → ℕ → ℕ → List ℕ → Result Edit
locate tree span path start end replacement = elim span.parent_path [
  | none ↦ ok (record { span_path = path; start = start; end = end; replacement = replacement })
  | some parent_path ↦ elim (by_path tree parent_path) [
    | none ↦ err (span_not_found parent_path)
    | some parent ↦ ok (record {
      span_path = parent.path;
      start = span.parent_char_offset + start;
      end = span.parent_char_offset + end;
      replacement = replacement;
    })
  ]
]

unfoldable pub replace : SpanTree → String → ℕ → ℕ → List ℕ → Result SpanTree
unfolding locate
replace tree path start end replacement = elim (by_path tree path) [
  | none ↦ err (span_not_found path)
  | some span ↦
      if out_of_bounds start end span
      then err (span_offset_error path)
      else (locate tree span path start end replacement >>= λ e. ok (add_edit tree e))
]

-- Spans that are not nested.
unfoldable pub total_chars : List Span → ℕ
total_chars [] = 0
total_chars (s ∷ ss) =
    let rest = total_chars ss in elim s.parent_path [ none ↦ length s.text + rest | some _ ↦ rest ]

-- The keys of `by_span`, each once, in the order of the first edit.
unfoldable pub edited_paths : List Edit → List String → List String
edited_paths [] seen = []
edited_paths (e ∷ es) seen = elim (contains e.span_path seen) [
  | true ↦ edited_paths es seen
  | false ↦ e.span_path ∷ edited_paths es (e.span_path ∷ seen)
]

unfoldable pub edits_of : String → List Edit → List Edit
edits_of path [] = []
edits_of path (e ∷ es) =
    let rest = edits_of path es in if str_eq e.span_path path then e ∷ rest else rest

-- `encode` is `json.dumps(text, ensure_ascii=False)[1:-1].encode("utf-8")`.
module _ (encode : List ℕ → List ℕ) where
  -- One iteration of the loop that builds `patches`.
  unfoldable pub patch_for : SpanTree → String → Result Patch
  unfolding edits_of
  patch_for tree path = elim (by_path tree path) [
    | none ↦ err (span_not_found path)
    | some span ↦ elim span.bytes [
      | none ↦ err (span_offset_error path)
      | some (byte_start, byte_end) ↦ do
        text ← apply_char_edits span.text (edits_of path tree.edits)
        ok (record { start = byte_start; end = byte_end; encoded = encode text })
    ]
  ]

  unfoldable pub patches_for : SpanTree → List String → Result (List Patch)
  unfolding patch_for
  patches_for tree [] = ok []
  patches_for tree (p ∷ ps) = do q ← patch_for tree p; qs ← patches_for tree ps; ok (q ∷ qs)

  unfoldable pub serialise : SpanTree → Result (List ℕ)
  unfolding patches_for edited_paths
  serialise tree = if not (is_nonempty tree.edits) then ok tree.raw else do
    patches ← patches_for tree (edited_paths tree.edits [])
    ok (splice_all tree.raw patches)
