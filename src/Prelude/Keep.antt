-- ===== src/Prelude/Keep.antt =====
-- Lemmas on `keep`, and on a predicate of all elements.
use mathlib.Core.Path.{◌≡◌, refl, subst}
use mathlib.Core.Logic.{inl, inr}
use mathlib.Core.Bool.{Bool}
use mathlib.Core.List.{List, [], ◌∷◌, ◌++◌}
use native.Mathlib.Omega.{arith}
use zero_trace.Prelude.Lists.{All}
use zero_trace.Prelude.Search.{Any}
use zero_trace.Prelude.Tests.{keep, Bool-cases}

pub keep-append {ℓ} :
    {A : Type ℓ} (p : A → Bool) (xs ys : List A) → keep p (xs ++ ys) ≡ keep p xs ++ keep p ys
keep-append p [] ys = refl
keep-append p (x ∷ xs) ys = ground (arith, keep-append p xs ys)

pub All-keep {ℓ κ} :
    {A : Type ℓ} (P : A → Type κ) (p : A → Bool) (xs : List A) → All P xs → All P (keep p xs)
All-keep P p [] h = tt
All-keep P p (x ∷ xs) h = elim (Bool-cases (p x)) [
  | inl kept ↦ rw kept (h.0, All-keep P p xs h.1)
  | inr left ↦ rw left (All-keep P p xs h.1)
]

pub All-map {ℓ κ} :
    {A : Type ℓ} {P Q : A → Type κ} (f : (x : A) → P x → Q x) (xs : List A) → All P xs → All Q xs
All-map f [] h = tt
All-map f (x ∷ xs) h = (f x h.0, All-map f xs h.1)

-- What holds of all elements holds of one that is among them.
pub All-pick {ℓ} :
    {A : Type 0} (P : A → Type ℓ) (a : A) (xs : List A) → All P xs → Any (λ x. x ≡ a) xs → P a
All-pick P a [] h m = absurd m
All-pick P a (x ∷ xs) h (inl e) = subst P e h.0
All-pick P a (x ∷ xs) h (inr m) = All-pick P a xs h.1 m
