-- ===== src/Gate/Located.antt =====
-- What `get` and `set_` of Control-DB/zerotrace/spans/paths.py do to each other.
use zero_trace.Prelude.{
  ℕ, zero, suc, String, ◌≡◌, refl, sym, inl, inr, true, false, Option, none, some, List, [], ◌∷◌,
  ◌++◌, arith, codes, Any, Any-left, Any-right, Option-cases, Bool-cases, ==_refl, ==→eq, ◌==◌,
}
use mathlib.Core.Option.{some-injective}
use mathlib.Core.Path.{subst}
use zero_trace.Gate.Node.{
  Node, null, boolean, number, text, array, object, Nodes, done, item, Entries, end, entry, text_eq,
  nth, put_nth, value_of, put_key, walk_strings, walk_items, walk_entries,
}
use zero_trace.Gate.Paths.{
  Segment, key, index, step, put, get_at, set_at, get, set_, parse, parse_part, parse_parts,
  split_dots, read_indices, outside, is_name_start, span_name, cons_key,
}

pub text_eq_refl : (s : List ℕ) → text_eq s s ≡ true
text_eq_refl [] = refl
text_eq_refl (x ∷ xs) = ground (arith, text_eq_refl xs, ==_refl x)

pub text_eq-eq : (s t : List ℕ) → text_eq s t ≡ true → s ≡ t
text_eq-eq [] [] h = refl
text_eq-eq [] (y ∷ ys) h = cc
text_eq-eq (x ∷ xs) [] h = cc
text_eq-eq (x ∷ xs) (y ∷ ys) h = ground (arith, text_eq-eq xs ys, ==→eq x y)

nth-put_nth :
    (i : ℕ) (ns : Nodes) (c v : Node) → nth i ns ≡ some c → nth i (put_nth i v ns) ≡ some v
nth-put_nth i done c v e = cc
nth-put_nth zero (item n ns) c v e = refl
nth-put_nth (suc i) (item n ns) c v e = nth-put_nth i ns c v e

value_of-put_key :
    (k : List ℕ) (es : Entries) (c v : Node)
    → value_of k es ≡ some c
    → value_of k (put_key k v es) ≡ some v
unfolding value_of put_key
value_of-put_key k end c v e = cc
value_of-put_key k (entry j n es) c v e = ground (arith, value_of-put_key k es c v)

step-put : (n c v : Node) (s : Segment) → step n s ≡ some c → step (put n s v) s ≡ some v
unfolding step put
step-put (array ns) c v (index i) e = nth-put_nth i ns c v e
step-put (object es) c v (key k) e = value_of-put_key k es c v e
step-put (array ns) c v (key k) e = absurd (ground arith)
step-put (object es) c v (index i) e = absurd (ground arith)
step-put null c v s e = absurd (ground arith)
step-put (boolean b) c v s e = absurd (ground arith)
step-put (number b) c v s e = absurd (ground arith)
step-put (text b) c v s e = absurd (ground arith)

get_at-set_at : (n v m : Node) (ss : List Segment) → set_at n ss v ≡ some m → get_at m ss ≡ some v
unfolding set_at get_at
get_at-set_at n v m [] e = absurd (ground arith)
get_at-set_at n v m (s ∷ []) e = elim (Option-cases (step n s)) [
  | inl lost ↦ absurd (ground arith)
  | inr (c, found) ↦
      subst (λ x. get_at x (s ∷ []) ≡ some v) (some-injective _ _ (rw (set_at, found) at e))
        (rw (get_at, step-put n c v s found) refl)
]
get_at-set_at n v m (s ∷ t ∷ ss) e = elim (Option-cases (step n s)) [
  | inl lost ↦ absurd (ground arith)
  | inr (c, found) ↦ elim (Option-cases (set_at c (t ∷ ss) v)) [
    | inl lost ↦ absurd (ground arith)
    | inr (d, set) ↦
        subst (λ x. get_at x (s ∷ t ∷ ss) ≡ some v)
          (some-injective _ _ (rw (set_at, found, set) at e))
          (rw (get_at, step-put n c d s found) (get_at-set_at c v d (t ∷ ss) set))
  ]
]

-- After `set_` has succeeded, `get` of the path gives the value that was set.
pub get-set_ :
    (payload v changed : Node) (path : String)
    → set_ payload path v ≡ some changed
    → get changed path ≡ some v
unfolding get set_
get-set_ payload v changed path e = elim (Option-cases (parse (codes path))) [
  | inl lost ↦ absurd (ground arith)
  | inr (ss, parsed) ↦
      rw (get, parsed) (get_at-set_at payload v changed ss (rw (set_, parsed) at e))
]

-- A text at a path is among the texts of the body.
nth-walk :
    (i : ℕ) (ns : Nodes) (c : Node) (s : List ℕ)
    → nth i ns ≡ some c
    → Any (λ x. x ≡ s) (walk_strings c)
    → Any (λ x. x ≡ s) (walk_items ns)
unfolding walk_strings
nth-walk i done c s e a = absurd (ground arith)
nth-walk zero (item n ns) c s e a =
    Any-left (λ x. x ≡ s) (walk_strings n) (walk_items ns)
      (subst (λ y. Any (λ x. x ≡ s) (walk_strings y)) (sym (some-injective _ _ e)) a)
nth-walk (suc i) (item n ns) c s e a =
    Any-right (λ x. x ≡ s) (walk_strings n) (walk_items ns) (nth-walk i ns c s e a)

value_of-walk :
    (k : List ℕ) (es : Entries) (c : Node) (s : List ℕ)
    → value_of k es ≡ some c
    → Any (λ x. x ≡ s) (walk_strings c)
    → Any (λ x. x ≡ s) (walk_entries es)
unfolding walk_strings value_of
value_of-walk k end c s e a = absurd (ground arith)
value_of-walk k (entry j n es) c s e a = elim (Bool-cases (text_eq j k)) [
  | inl same ↦ inr (
      Any-left (λ x. x ≡ s) (walk_strings n) (walk_entries es)
        (subst (λ y. Any (λ x. x ≡ s) (walk_strings y))
          (sym (some-injective _ _ (rw (value_of, same) at e))) a))
  | inr other ↦ inr (
      Any-right (λ x. x ≡ s) (walk_strings n) (walk_entries es)
        (value_of-walk k es c s (rw (value_of, other) at e) a))
]

step-walk :
    (n c : Node) (seg : Segment) (s : List ℕ)
    → step n seg ≡ some c
    → Any (λ x. x ≡ s) (walk_strings c)
    → Any (λ x. x ≡ s) (walk_strings n)
unfolding step walk_strings
step-walk (array ns) c (index i) s e a = nth-walk i ns c s e a
step-walk (object es) c (key k) s e a = value_of-walk k es c s e a
step-walk (array ns) c (key k) s e a = absurd (ground arith)
step-walk (object es) c (index i) s e a = absurd (ground arith)
step-walk null c g s e a = absurd (ground arith)
step-walk (boolean b) c g s e a = absurd (ground arith)
step-walk (number b) c g s e a = absurd (ground arith)
step-walk (text b) c g s e a = absurd (ground arith)

get_at-walk :
    (n : Node) (ss : List Segment) (s : List ℕ)
    → get_at n ss ≡ some (text s)
    → Any (λ x. x ≡ s) (walk_strings n)
unfolding get_at walk_strings
get_at-walk n [] s e =
    subst (λ y. Any (λ x. x ≡ s) (walk_strings y)) (sym (some-injective _ _ e)) (inl refl)
get_at-walk n (g ∷ ss) s e = elim (Option-cases (step n g)) [
  | inl lost ↦ absurd (ground arith)
  | inr (c, found) ↦ step-walk n c g s found (get_at-walk c ss s (rw (get_at, found) at e))
]

pub get-walk_strings :
    (n : Node) (path : String) (s : List ℕ)
    → get n path ≡ some (text s)
    → Any (λ x. x ≡ s) (walk_strings n)
unfolding get
get-walk_strings n path s e = elim (Option-cases (parse (codes path))) [
  | inl lost ↦ absurd (ground arith)
  | inr (ss, parsed) ↦ get_at-walk n ss s (rw (get, parsed) at e)
]

-- A path that parses has a first segment.
abbrev IsSome : Option (List Segment) → Type 0
IsSome none = Unit
IsSome (some []) = ⊥
IsSome (some (s ∷ ss)) = Unit

cons_key-IsSome : (k : List ℕ) (o : Option (List Segment)) → IsSome (cons_key k o)
cons_key-IsSome k none = tt
cons_key-IsSome k (some ss) = tt

parse_part-IsSome : (p : List ℕ) → IsSome (parse_part p)
unfolding parse_part
parse_part-IsSome [] = tt
parse_part-IsSome (c ∷ cs) =
    elim (is_name_start c)
      as (λ b. IsSome (elim b [
        | true ↦ let (name, rest) = span_name cs in cons_key (c ∷ name) (read_indices outside rest)
        | false ↦ none
      ])) [ true ↦ cons_key-IsSome _ _ | false ↦ tt ]

joined-IsSome :
    (a b : Option (List Segment))
    → IsSome a
    → IsSome (elim a [
      | none ↦ none
      | some first ↦ elim b [ none ↦ none | some rest ↦ some (first ++ rest) ]
    ])
joined-IsSome none b h = tt
joined-IsSome (some []) b h = absurd h
joined-IsSome (some (s ∷ ss)) none h = tt
joined-IsSome (some (s ∷ ss)) (some rest) h = tt

split-parse : (ps : List (List ℕ)) (p : List ℕ) → IsSome (parse_parts (p ∷ ps))
unfolding parse_parts
split-parse ps p = joined-IsSome (parse_part p) (parse_parts ps) (parse_part-IsSome p)

first_part : (cs : List ℕ) → (p : List ℕ) × (ps : List (List ℕ)) × (split_dots cs ≡ p ∷ ps)
unfolding split_dots
first_part [] = ([], [], refl)
first_part (c ∷ cs) = elim (Bool-cases (c == b'.')) [
  | inl dot ↦ ([], split_dots cs, rw (split_dots, dot) refl)
  | inr other ↦ let (p, ps, e) = first_part cs in (c ∷ p, ps, rw (split_dots, other, e) refl)
]

parse-IsSome : (cs : List ℕ) → IsSome (parse cs)
unfolding parse
parse-IsSome cs =
    let (p, ps, e) = first_part cs in subst (λ x. IsSome (parse_parts x)) (sym e) (split-parse ps p)

set_at-get_at :
    (n c v : Node) (s : Segment) (ss : List Segment)
    → get_at n (s ∷ ss) ≡ some c
    → (m : Node) × (set_at n (s ∷ ss) v ≡ some m)
unfolding get_at set_at
set_at-get_at n c v s [] e = elim (Option-cases (step n s)) [
  | inl lost ↦ absurd (ground arith)
  | inr (d, found) ↦ (put n s v, rw (set_at, found) refl)
]
set_at-get_at n c v s (t ∷ ss) e = elim (Option-cases (step n s)) [
  | inl lost ↦ absurd (ground arith)
  | inr (d, found) ↦
      let (m, set) = set_at-get_at d c v t ss (rw (get_at, found) at e) in
      (put n s m, rw (set_at, found, set) refl)
]

-- Where `get` finds a value, `set_` succeeds.
pub set_-get :
    (n c v : Node) (path : String) → get n path ≡ some c → (m : Node) × (set_ n path v ≡ some m)
unfolding get set_
set_-get n c v path e = elim (Option-cases (parse (codes path))) [
  | inl lost ↦ absurd (ground arith)
  | inr ([], parsed) ↦ absurd (subst IsSome parsed (parse-IsSome (codes path)))
  | inr (s ∷ ss, parsed) ↦
      let (m, set) = set_at-get_at n c v s ss (rw (get, parsed) at e) in (m, rw (set_, parsed) set)
]
