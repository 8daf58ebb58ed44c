-- ===== src/Prelude/Lists.antt =====
-- Lists measured and indexed by native numbers, under the library's names.
use Prim.Native.Nat.{ℕ, zero, suc, ◌+◌, ◌-◌, ◌≤◌}
use mathlib.Core.Path.{◌≡◌, refl, ap}
use mathlib.Core.List.{List, [], ◌∷◌, ◌++◌}
use mathlib.Core.Option.{Option, none, some}
use native.Mathlib.Omega.{arith}

module _ {ℓ} {A : Type ℓ} where
  abbrev pub length : List A → ℕ
  length [] = 0
  length (x ∷ xs) = suc (length xs)

  abbrev pub get_elem? : List A → ℕ → Option A
  get_elem? [] i = none
  get_elem? (x ∷ xs) zero = some x
  get_elem? (x ∷ xs) (suc i) = get_elem? xs i

  -- Python's `xs[i]`, with a value for an index out of range.
  abbrev pub get_or : List A → ℕ → A → A
  get_or [] i d = d
  get_or (x ∷ xs) zero d = x
  get_or (x ∷ xs) (suc i) d = get_or xs i d

  abbrev pub take : ℕ → List A → List A
  take zero xs = []
  take (suc n) [] = []
  take (suc n) (x ∷ xs) = x ∷ take n xs

  abbrev pub drop : ℕ → List A → List A
  drop zero xs = xs
  drop (suc n) [] = []
  drop (suc n) (x ∷ xs) = drop n xs

  pub length-append : (xs ys : List A) → length (xs ++ ys) ≡ length xs + length ys
  length-append [] ys = omega arith
  length-append (x ∷ xs) ys = omega (arith, length-append xs ys)

  pub take-append-drop : (n : ℕ) (xs : List A) → take n xs ++ drop n xs ≡ xs
  take-append-drop zero xs = refl
  take-append-drop (suc n) [] = refl
  take-append-drop (suc n) (x ∷ xs) = ap (◌∷◌ x) (take-append-drop n xs)

  pub length-drop : (n : ℕ) (xs : List A) → length (drop n xs) ≡ length xs - n
  length-drop zero xs = omega arith
  length-drop (suc n) [] = omega arith
  length-drop (suc n) (x ∷ xs) = omega (arith, length-drop n xs)

-- Cutting a list that is itself a cut with something behind it.
module _ {ℓ} {A : Type ℓ} where
  pub take-take_append :
      (a k : ℕ) (xs ys : List A) → a ≤ k → k ≤ length xs → take a (take k xs ++ ys) ≡ take a xs
  take-take_append zero k xs ys h l = refl
  take-take_append (suc a) zero xs ys h l = absurd (omega arith)
  take-take_append (suc a) (suc k) [] ys h l = absurd (omega arith)
  take-take_append (suc a) (suc k) (x ∷ xs) ys h l =
      ap (◌∷◌ x) (take-take_append a k xs ys (omega arith) (omega arith))

  pub drop-take_append :
      (b k : ℕ) (xs ys : List A)
      → b ≤ k
      → k ≤ length xs
      → drop b (take k xs ++ ys) ≡ drop b (take k xs) ++ ys
  drop-take_append zero k xs ys h l = refl
  drop-take_append (suc b) zero xs ys h l = absurd (omega arith)
  drop-take_append (suc b) (suc k) [] ys h l = absurd (omega arith)
  drop-take_append (suc b) (suc k) (x ∷ xs) ys h l =
      drop-take_append b k xs ys (omega arith) (omega arith)

  pub take-length : (k : ℕ) (xs : List A) → length xs ≤ k → take k xs ≡ xs
  take-length zero [] h = refl
  take-length zero (x ∷ xs) h = absurd (omega arith)
  take-length (suc k) [] h = refl
  take-length (suc k) (x ∷ xs) h = ap (◌∷◌ x) (take-length k xs (omega arith))

-- Around an element in the middle of a list.
module _ {ℓ} {A : Type ℓ} where
  pub take_middle :
      (n m : ℕ) (xs ys : List A) (c : A)
      → n ≡ length xs + suc m
      → take n (xs ++ c ∷ ys) ≡ xs ++ c ∷ take m ys
  take_middle zero m xs ys c e = absurd (omega arith)
  take_middle (suc n) m [] ys c e = let e' : n ≡ m = omega arith in ap (λ k. c ∷ take k ys) e'
  take_middle (suc n) m (x ∷ xs) ys c e = ap (◌∷◌ x) (take_middle n m xs ys c (omega arith))

  pub get_elem?_middle :
      (n m : ℕ) (xs ys : List A) (c : A)
      → n ≡ length xs + suc m
      → get_elem? (xs ++ c ∷ ys) n ≡ get_elem? ys m
  get_elem?_middle zero m xs ys c e = absurd (omega arith)
  get_elem?_middle (suc n) m [] ys c e = let e' : n ≡ m = omega arith in ap (get_elem? ys) e'
  get_elem?_middle (suc n) m (x ∷ xs) ys c e = get_elem?_middle n m xs ys c (omega arith)

  pub take_before : (n : ℕ) (xs ys : List A) → n ≡ length xs → take n (xs ++ ys) ≡ xs
  take_before zero [] ys e = refl
  take_before zero (x ∷ xs) ys e = absurd (omega arith)
  take_before (suc n) [] ys e = absurd (omega arith)
  take_before (suc n) (x ∷ xs) ys e = ap (◌∷◌ x) (take_before n xs ys (omega arith))

  pub get_elem?_at :
      (n : ℕ) (xs ys : List A) (c : A) → n ≡ length xs → get_elem? (xs ++ c ∷ ys) n ≡ some c
  get_elem?_at zero [] ys c e = refl
  get_elem?_at zero (x ∷ xs) ys c e = absurd (omega arith)
  get_elem?_at (suc n) [] ys c e = absurd (omega arith)
  get_elem?_at (suc n) (x ∷ xs) ys c e = get_elem?_at n xs ys c (omega arith)

-- A predicate of every element, and of some element.
abbrev pub All {ℓ κ} : {A : Type ℓ} → (A → Type κ) → List A → Type κ
All P [] = Unit
All P (x ∷ xs) = P x × All P xs

pub All-append {ℓ κ} :
    {A : Type ℓ} (P : A → Type κ) (xs ys : List A) → All P (xs ++ ys) → All P xs × All P ys
All-append P [] ys h = (tt, h)
All-append P (x ∷ xs) ys h = let (hx, hy) = All-append P xs ys h.1 in ((h.0, hx), hy)

pub All-join {ℓ κ} :
    {A : Type ℓ} (P : A → Type κ) (xs ys : List A) → All P xs → All P ys → All P (xs ++ ys)
All-join P [] ys hx hy = hy
All-join P (x ∷ xs) ys hx hy = (hx.0, All-join P xs ys hx.1 hy)

module _ {ℓ} {A : Type ℓ} where
  -- Python's `xs[a:b]` with `0 ≤ a`: what lies past the end is left out.
  abbrev pub slice : List A → ℕ → ℕ → List A
  slice xs a b = take (b - a) (drop a xs)
