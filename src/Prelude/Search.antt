-- ===== src/Prelude/Search.antt =====
-- Searching a text for another, and predicates of some element.
use Prim.Native.Nat.{ℕ}
use mathlib.Core.Path.{◌≡◌, refl, ap}
use mathlib.Core.Logic.{◌⊎◌, inl, inr}
use mathlib.Core.Bool.{true}
use mathlib.Core.List.{List, [], ◌∷◌, ◌++◌}
use native.Mathlib.Omega.{arith}
use zero_trace.Prelude.Tests.{is_prefix, is_infix, Bool-cases}

-- `xs` stands somewhere in `ys`.
abbrev pub Occurs : List ℕ → List ℕ → Type 0
Occurs xs ys = (before : List ℕ) × (after : List ℕ) × (ys ≡ before ++ (xs ++ after))

is_prefix-append : (xs zs : List ℕ) → is_prefix xs (xs ++ zs) ≡ true
is_prefix-append [] zs = refl
is_prefix-append (x ∷ xs) zs = ground (arith, is_prefix-append xs zs)

is_prefix-split : (xs ys : List ℕ) → is_prefix xs ys ≡ true → (after : List ℕ) × (ys ≡ xs ++ after)
is_prefix-split [] ys h = (ys, refl)
is_prefix-split (x ∷ xs) [] h = cc
is_prefix-split (x ∷ xs) (y ∷ ys) h =
    let (after, e) = is_prefix-split xs ys (ground arith) in (after, ground arith)

pub is_infix-Occurs : (xs ys : List ℕ) → is_infix xs ys ≡ true → Occurs xs ys
is_infix-Occurs xs [] h = let (after, e) = is_prefix-split xs [] h in ([], after, e)
is_infix-Occurs xs (y ∷ ys) h = elim (Bool-cases (is_prefix xs (y ∷ ys))) [
  | inl at_start ↦ let (after, e) = is_prefix-split xs (y ∷ ys) at_start in ([], after, e)
  | inr later ↦
      let (before, after, e) = is_infix-Occurs xs ys (ground arith) in
      (y ∷ before, after, ap (◌∷◌ y) e)
]

is_infix-prefix : (xs ys : List ℕ) → is_prefix xs ys ≡ true → is_infix xs ys ≡ true
is_infix-prefix xs [] h = h
is_infix-prefix xs (y ∷ ys) h = ground arith

pub is_infix-append : (before xs after : List ℕ) → is_infix xs (before ++ (xs ++ after)) ≡ true
is_infix-append [] xs after = is_infix-prefix xs (xs ++ after) (is_prefix-append xs after)
is_infix-append (b ∷ before) xs after = ground (arith, is_infix-append before xs after)

-- A predicate of some element.
abbrev pub Any {ℓ} : {A : Type ℓ} → (A → Type 0) → List A → Type 0
Any P [] = ⊥
Any P (x ∷ xs) = P x ⊎ Any P xs

module _ {ℓ} {A : Type ℓ} (P : A → Type 0) where
  pub Any-left : (xs ys : List A) → Any P xs → Any P (xs ++ ys)
  Any-left [] ys h = absurd h
  Any-left (x ∷ xs) ys (inl p) = inl p
  Any-left (x ∷ xs) ys (inr h) = inr (Any-left xs ys h)

  pub Any-right : (xs ys : List A) → Any P ys → Any P (xs ++ ys)
  Any-right [] ys h = h
  Any-right (x ∷ xs) ys h = inr (Any-right xs ys h)
