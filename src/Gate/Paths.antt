-- ===== src/Gate/Paths.antt =====
-- Control-DB/zerotrace/spans/paths.py, on ASCII paths without line breaks; none is SpanPathError.
use zero_trace.Prelude.{
  ℕ, ◌+◌, ◌-◌, ◌*◌, String, Bool, true, false, ◌&&◌, ◌||◌, Option, none, some, List, [], ◌∷◌, ◌++◌,
  ◌==◌, leb, codes,
}
use zero_trace.Gate.Node.{Node, array, object, nth, put_nth, value_of, put_key}

pub data Segment : Type 0 where
  key : List ℕ → Segment
  index : ℕ → Segment

abbrev is_digit : ℕ → Bool
is_digit c = leb b'0' c && leb c b'9'

abbrev pub is_name_start : ℕ → Bool
is_name_start c = (leb b'A' c && leb c b'Z') || ((leb b'a' c && leb c b'z') || (c == b'_'))

abbrev is_name_char : ℕ → Bool
is_name_char c = is_name_start c || (is_digit c || (c == b'-'))

-- The longest prefix of name characters, and the rest.
abbrev pub span_name : List ℕ → List ℕ × List ℕ
span_name [] = ([], [])
span_name (c ∷ cs) = elim (is_name_char c) [
  | true ↦ let (name, rest) = span_name cs in (c ∷ name, rest)
  | false ↦ ([], c ∷ cs)
]

pub data Reading : Type 0 where
  outside opened : Reading
  digits : ℕ → Reading

abbrev cons_index : ℕ → Option (List Segment) → Option (List Segment)
cons_index n none = none
cons_index n (some is) = some (index n ∷ is)

-- The second group of `_TOKEN` and what `_INDEX.findall` finds in it: `[n]` any number of times.
unfoldable pub read_indices : Reading → List ℕ → Option (List Segment)
read_indices outside [] = some []
read_indices outside (c ∷ cs) = elim (c == b'[') [ true ↦ read_indices opened cs | false ↦ none ]
read_indices opened [] = none
read_indices opened (c ∷ cs) = elim (is_digit c) [
  | true ↦ read_indices (digits (c - b'0')) cs
  | false ↦ none
]
read_indices (digits n) [] = none
read_indices (digits n) (c ∷ cs) = elim (is_digit c) [
  | true ↦ read_indices (digits (n * 10 + (c - b'0'))) cs
  | false ↦ elim (c == b']') [ true ↦ cons_index n (read_indices outside cs) | false ↦ none ]
]

abbrev pub cons_key : List ℕ → Option (List Segment) → Option (List Segment)
cons_key k none = none
cons_key k (some is) = some (key k ∷ is)

-- `_TOKEN.match(part)`
unfoldable pub parse_part : List ℕ → Option (List Segment)
unfolding read_indices
parse_part [] = none
parse_part (c ∷ cs) = elim (is_name_start c) [
  | true ↦ let (name, rest) = span_name cs in cons_key (c ∷ name) (read_indices outside rest)
  | false ↦ none
]

-- `path.split(".")`
abbrev cons_first : ℕ → List (List ℕ) → List (List ℕ)
cons_first c [] = (c ∷ []) ∷ []
cons_first c (p ∷ ps) = (c ∷ p) ∷ ps

unfoldable pub split_dots : List ℕ → List (List ℕ)
split_dots [] = [] ∷ []
split_dots (c ∷ cs) = elim (c == b'.') [
  | true ↦ [] ∷ split_dots cs
  | false ↦ cons_first c (split_dots cs)
]

unfoldable pub parse_parts : List (List ℕ) → Option (List Segment)
unfolding parse_part
parse_parts [] = some []
parse_parts (p ∷ ps) = elim (parse_part p) [
  | none ↦ none
  | some first ↦ elim (parse_parts ps) [ none ↦ none | some rest ↦ some (first ++ rest) ]
]

-- `parse`. A blank path fails at its first part.
unfoldable pub parse : List ℕ → Option (List Segment)
unfolding split_dots parse_parts
parse path = parse_parts (split_dots path)

-- `_step`
unfoldable pub step : Node → Segment → Option Node
step (array ns) (index i) = nth i ns
step (object es) (key k) = value_of k es
step _ _ = none

-- `node[segment] = value`, where `_step` has succeeded.
unfoldable pub put : Node → Segment → Node → Node
put (array ns) (index i) v = array (put_nth i v ns)
put (object es) (key k) v = object (put_key k v es)
put n _ v = n

unfoldable pub get_at : Node → List Segment → Option Node
unfolding step
get_at n [] = some n
get_at n (s ∷ ss) = elim (step n s) [ none ↦ none | some child ↦ get_at child ss ]

unfoldable pub set_at : Node → List Segment → Node → Option Node
unfolding step put
set_at n [] v = none
set_at n (s ∷ []) v = elim (step n s) [ none ↦ none | some _ ↦ some (put n s v) ]
set_at n (s ∷ t ∷ ss) v = elim (step n s) [
  | none ↦ none
  | some child ↦ elim (set_at child (t ∷ ss) v) [ none ↦ none | some c ↦ some (put n s c) ]
]

unfoldable pub get : Node → String → Option Node
unfolding get_at
get payload path = elim (parse (codes path)) [ none ↦ none | some ss ↦ get_at payload ss ]

unfoldable pub set_ : Node → String → Node → Option Node
unfolding set_at
set_ payload path v = elim (parse (codes path)) [ none ↦ none | some ss ↦ set_at payload ss v ]

unfoldable pub exists : Node → String → Bool
unfolding get
exists payload path = elim (get payload path) [ none ↦ false | some _ ↦ true ]
