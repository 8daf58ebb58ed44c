-- ===== src/India/Gstin.antt =====
-- `gstin_ok` of gateway/detectors/india_id.py, over code points, and the errors that it catches.
use mathlib.Core.Option.{some-injective}
use native.Mathlib.Decide.{dec_lt}
use zero_trace.Prelude.{
  suc, ◌++◌, true, sym, ap, ◌∙◌, length-append, take_middle, get_elem?_middle, take_before,
  get_elem?_at, ℕ, ◌+◌, ◌-◌, ◌*◌, ◌/◌, ◌%◌, ◌<◌, ◌≡◌, Bool, false, not, ◌&&◌, Option, none, some,
  List, [], ◌∷◌, arith, ◌==◌, leb, ltb, length, get_elem?, take, Option-cases, inl, inr,
  if◌then◌else◌,
}

-- `_GST_CHARS.find(ch)`: 0 to 9 for digits, 10 to 35 for capital letters, else not found.
unfoldable pub gst_position : ℕ → Option ℕ
gst_position c =
    if leb b'0' c && leb c b'9'
    then some (c - b'0')
    else if leb b'A' c && leb c b'Z'
    then some (c - b'A' + 10)
    else none

-- `_GST_CHARS[p]`, for p below 36.
unfoldable pub gst_char : ℕ → ℕ
gst_char p = if ltb p 10 then p + b'0' else p - 10 + b'A'

-- The two base-36 digits of a weighted position.
unfoldable pub fold36 : ℕ → ℕ → ℕ
fold36 i p = let product = p * (if i % 2 == 0 then 1 else 2) in product / 36 + product % 36

-- The loop over `enumerate(value[:14])`; none is the early `return False`.
unfoldable pub gstin_total : ℕ → ℕ → List ℕ → Option ℕ
unfolding gst_position fold36
gstin_total i total [] = some total
gstin_total i total (c ∷ cs) = elim (gst_position c) [
  | none ↦ none
  | some p ↦ gstin_total (i + 1) (total + fold36 i p) cs
]

unfoldable pub gstin_ok : List ℕ → Bool
unfolding gstin_total gst_char
gstin_ok value =
    if not (length value == 15) then false else elim (gstin_total 0 0 (take 14 value)) [
      | none ↦ false
      | some total ↦ elim (get_elem? value 14) [
        | none ↦ false
        | some c ↦ gst_char ((36 - total % 36) % 36) == c
      ]
    ]

-- `gst_char` tells positions apart.
gst_char_injective : (p q : ℕ) → p < 36 → q < 36 → gst_char p ≡ gst_char q → p ≡ q
unfolding gst_char
gst_char_injective p q hp hq e = ground arith

-- Both weights permute the positions.
fold36_injective : (i p q : ℕ) → p < 36 → q < 36 → fold36 i p % 36 ≡ fold36 i q % 36 → p ≡ q
unfolding fold36
fold36_injective i p q hp hq e = ground arith

gst_position-lt : (c p : ℕ) → gst_position c ≡ some p → p < 36
unfolding gst_position
gst_position-lt c p e = ground arith

gst_position_injective : (c d p : ℕ) → gst_position c ≡ some p → gst_position d ≡ some p → c ≡ d
unfolding gst_position
gst_position_injective c d p e f = ground arith

-- The start of the loop's total only shifts its end.
total_shift :
    (i t t' : ℕ) (cs : List ℕ) (m m' : ℕ)
    → gstin_total i t cs ≡ some m
    → gstin_total i t' cs ≡ some m'
    → m + t' ≡ m' + t
unfolding gstin_total
total_shift i t t' [] m m' e f = ground arith
total_shift i t t' (c ∷ cs) m m' e f = elim (Option-cases (gst_position c)) [
  | inl no_place ↦ ground arith
  | inr (p, at_p) ↦ omega (
    arith,
    total_shift (i + 1) (t + fold36 i p) (t' + fold36 i p) cs m m' (rw (at_p, gstin_total) at e)
        (rw (at_p, gstin_total) at f),
  )
]

-- Two codes that differ in one summed character have different totals mod 36.
total_substitution :
    (i t : ℕ) (xs ys : List ℕ) (c d m m' : ℕ)
    → gstin_total i t (xs ++ c ∷ ys) ≡ some m
    → gstin_total i t (xs ++ d ∷ ys) ≡ some m'
    → m % 36 ≡ m' % 36
    → c ≡ d
unfolding gstin_total
total_substitution i t [] ys c d m m' e f same = elim (Option-cases (gst_position c)) [
  | inl no_c ↦ ground arith
  | inr (p, at_p) ↦ elim (Option-cases (gst_position d)) [
    | inl no_d ↦ ground arith
    | inr (q, at_q) ↦
        let shifted =
          total_shift (i + 1) (t + fold36 i p) (t + fold36 i q) ys m m'
            (rw (at_p, gstin_total) at e) (rw (at_q, gstin_total) at f) in
        let p_is_q : p ≡ q =
          fold36_injective i p q (gst_position-lt c p at_p) (gst_position-lt d q at_q)
            (omega arith) in
        gst_position_injective c d p at_p (rw p_is_q at_q)
  ]
]
total_substitution i t (x ∷ xs) ys c d m m' e f same = elim (Option-cases (gst_position x)) [
  | inl no_x ↦ ground arith
  | inr (p, at_p) ↦
      total_substitution (i + 1) (t + fold36 i p) xs ys c d m m' (rw (at_p, gstin_total) at e)
        (rw (at_p, gstin_total) at f) same
]

-- What an accepted code says.
pub record Checks (v : List ℕ) : Type 0 where
  pub size : length v ≡ 15
  pub total : ℕ
  pub digit : ℕ
  pub sums : gstin_total 0 0 (take 14 v) ≡ some total
  pub last : get_elem? v 14 ≡ some digit
  pub agrees : gst_char ((36 - total % 36) % 36) ≡ digit

gstin_ok-Checks : (v : List ℕ) → gstin_ok v ≡ true → Checks v
unfolding gstin_ok
gstin_ok-Checks v h = elim (Option-cases (gstin_total 0 0 (take 14 v))) [
  | inl no_total ↦ ground arith
  | inr (m, at_m) ↦ elim (Option-cases (get_elem? v 14)) [
    | inl no_digit ↦ ground arith
    | inr (c, at_c) ↦ record {
      size = ground arith;
      total = m;
      digit = c;
      sums = at_m;
      last = at_c;
      agrees = ground arith;
    }
  ]
]

-- The check digit tells totals apart mod 36.
gst_digit_injective :
    (m m' : ℕ) → gst_char ((36 - m % 36) % 36) ≡ gst_char ((36 - m' % 36) % 36) → m % 36 ≡ m' % 36
gst_digit_injective m m' e =
    let e' = gst_char_injective _ _ (omega arith) (omega arith) e in omega (arith, e')

module _ (xs ys : List ℕ) (c d : ℕ) (one : Checks (xs ++ c ∷ ys))
    (two : Checks (xs ++ d ∷ ys)) where
  -- Before the check digit: `r` characters stand between.
  changed_before : (r : ℕ) → 14 ≡ length xs + suc r → c ≡ d
  changed_before r at_r =
      let same : one.digit ≡ two.digit = some-injective _ _ (
        sym one.last
        ∙ get_elem?_middle 14 r xs ys c at_r
        ∙ sym (get_elem?_middle 14 r xs ys d at_r)
        ∙ two.last) in
      total_substitution 0 0 xs (take r ys) c d one.total two.total
        (ap (gstin_total 0 0) (sym (take_middle 14 r xs ys c at_r)) ∙ one.sums)
        (ap (gstin_total 0 0) (sym (take_middle 14 r xs ys d at_r)) ∙ two.sums)
        (gst_digit_injective one.total two.total (one.agrees ∙ same ∙ sym two.agrees))

  changed_last : 14 ≡ length xs → c ≡ d
  changed_last at_end =
      let totals : one.total ≡ two.total = some-injective _ _ (
        sym one.sums
        ∙ ap (gstin_total 0 0)
            (take_before 14 xs (c ∷ ys) at_end ∙ sym (take_before 14 xs (d ∷ ys) at_end))
        ∙ two.sums) in
      let here : one.digit ≡ c =
        some-injective _ _ (sym one.last ∙ get_elem?_at 14 xs ys c at_end) in
      let there : two.digit ≡ d =
        some-injective _ _ (sym two.last ∙ get_elem?_at 14 xs ys d at_end) in
      sym here
      ∙ sym one.agrees
      ∙ ap (λ m. gst_char ((36 - m % 36) % 36)) totals
      ∙ two.agrees
      ∙ there

  changed_anywhere : c ≡ d
  changed_anywhere = elim (dec_lt (length xs) 14) [
    | yes before ↦ changed_before (13 - length xs) (omega arith)
    | no after ↦ changed_last (omega (arith, one.size, length-append xs (c ∷ ys)))
  ]

-- Of two codes that differ in one character, anywhere, at most one passes the checksum.
pub gstin_ok-changed :
    (xs ys : List ℕ) (c d : ℕ)
    → gstin_ok (xs ++ c ∷ ys) ≡ true
    → gstin_ok (xs ++ d ∷ ys) ≡ true
    → c ≡ d
gstin_ok-changed xs ys c d p q =
    changed_anywhere xs ys c d (gstin_ok-Checks _ p) (gstin_ok-Checks _ q)
