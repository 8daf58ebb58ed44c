-- ===== src/Ledger/Safe.antt =====
-- What the payload guard of gateway/ledger/chain.py excludes, and what it does not look at.
use zero_trace.Prelude.{
  ℕ, ◌+◌, String, ◌≡◌, ◌↔◌, refl, Bool, false, Option, none, some, List, [], ◌∷◌, ◌++◌, arith,
  if◌then◌else◌,
}
use zero_trace.Ledger.Json.{
  Json, null, boolean, integer, number, text, array, object, Items, done, item, Fields, end, field,
  Segment, key, index, is_forbidden, assert_safe, assert_safe_value, assert_safe_items,
  assert_safe_item, first_of_two,
}

-- A key of the payload, of a dict under it, or of a dict that stands directly in a list.
mutual
  pub data Reaches (k : String) : Fields → Type 0 where
    here : {v : Json} {rest : Fields} → Reaches k (field k v rest)
    later : {j : String} {v : Json} {rest : Fields} → Reaches k rest → Reaches k (field j v rest)
    inside : {j : String} {fs rest : Fields} → Reaches k fs → Reaches k (field j (object fs) rest)
    within :
        {j : String} {xs : Items} {rest : Fields}
        → InItems k xs
        → Reaches k (field j (array xs) rest)

  pub data InItems (k : String) : Items → Type 0 where
    at_head : {fs : Fields} {rest : Items} → Reaches k fs → InItems k (item (object fs) rest)
    in_tail : {v : Json} {rest : Items} → InItems k rest → InItems k (item v rest)

both_none {ℓ} : {A : Type ℓ} (a b : Option A) → first_of_two a b ≡ none → (a ≡ none) × (b ≡ none)
both_none a b h = ground arith

passes {ℓ} :
    {A : Type ℓ} (b : Bool) (place : A) (x y : Option A)
    → (if b then some place else first_of_two x y) ≡ none
    → (b ≡ false) × (x ≡ none) × (y ≡ none)
passes b place x y h = ground arith

module _ (lower : String → String) where
  guard-field :
      (k : String) (v : Json) (rest : Fields) (path : List Segment)
      → assert_safe lower (field k v rest) path ≡ none
      → (is_forbidden (lower k) ≡ false)
        × (assert_safe_value lower v (path ++ key k ∷ []) ≡ none)
        × (assert_safe lower rest path ≡ none)
  unfolding assert_safe
  guard-field k v rest path h =
      passes (is_forbidden (lower k)) (path ++ key k ∷ [])
        (assert_safe_value lower v (path ++ key k ∷ [])) (assert_safe lower rest path) h

  guard-item :
      (v : Json) (rest : Items) (i : ℕ) (path : List Segment)
      → assert_safe_items lower (item v rest) i path ≡ none
      → (assert_safe_item lower v (path ++ index i ∷ []) ≡ none)
        × (assert_safe_items lower rest (i + 1) path ≡ none)
  unfolding assert_safe_items
  guard-item v rest i path h =
      both_none (assert_safe_item lower v (path ++ index i ∷ []))
        (assert_safe_items lower rest (i + 1) path) h

  mutual
    unfolding assert_safe_value assert_safe_item

    reached_is_allowed :
        (k : String) (fs : Fields) (path : List Segment)
        → Reaches k fs
        → assert_safe lower fs path ≡ none
        → is_forbidden (lower k) ≡ false
    reached_is_allowed k end path r h = elim r [ ]
    reached_is_allowed k (field j v rest) path here h = (guard-field k v rest path h).0
    reached_is_allowed k (field j v rest) path (later r) h =
        reached_is_allowed k rest path r (guard-field j v rest path h).2
    reached_is_allowed k (field j (object fs) rest) path (inside r) h =
        reached_is_allowed k fs (path ++ key j ∷ []) r (guard-field j (object fs) rest path h).1
    reached_is_allowed k (field j (array xs) rest) path (within r) h =
        item_is_allowed k xs 0 (path ++ key j ∷ []) r (guard-field j (array xs) rest path h).1

    item_is_allowed :
        (k : String) (xs : Items) (i : ℕ) (path : List Segment)
        → InItems k xs
        → assert_safe_items lower xs i path ≡ none
        → is_forbidden (lower k) ≡ false
    item_is_allowed k done i path r h = elim r [ ]
    item_is_allowed k (item (object fs) rest) i path (at_head r) h =
        reached_is_allowed k fs (path ++ index i ∷ []) r (guard-item (object fs) rest i path h).0
    item_is_allowed k (item v rest) i path (in_tail r) h =
        item_is_allowed k rest (i + 1) path r (guard-item v rest i path h).1

  pub assert_safe-Reaches :
      (k : String) (fs : Fields)
      → assert_safe lower fs [] ≡ none
      → Reaches k fs
      → is_forbidden (lower k) ≡ false
  assert_safe-Reaches k fs h r = reached_is_allowed k fs [] r h

  allowed-field :
      (k : String) (v : Json) (rest : Fields) (path : List Segment)
      → is_forbidden (lower k) ≡ false
      → assert_safe_value lower v (path ++ key k ∷ []) ≡ none
      → assert_safe lower rest path ≡ none
      → assert_safe lower (field k v rest) path ≡ none
  unfolding assert_safe
  allowed-field k v rest path h hv hr = rw (assert_safe, h, hv, hr)

  mutual
    unfolding assert_safe assert_safe_value assert_safe_items assert_safe_item

    allowed_passes :
        (fs : Fields) (path : List Segment)
        → ((k : String) → Reaches k fs → is_forbidden (lower k) ≡ false)
        → assert_safe lower fs path ≡ none
    allowed_passes end path h = refl
    allowed_passes (field j v rest) path h =
        allowed-field j v rest path (h j here) (value_passes j v rest (path ++ key j ∷ []) h)
          (allowed_passes rest path (λ k r. h k (later r)))

    value_passes :
        (j : String) (v : Json) (rest : Fields) (path : List Segment)
        → ((k : String) → Reaches k (field j v rest) → is_forbidden (lower k) ≡ false)
        → assert_safe_value lower v path ≡ none
    value_passes j (object fs) rest path h = allowed_passes fs path (λ k r. h k (inside r))
    value_passes j (array xs) rest path h = items_pass xs 0 path (λ k r. h k (within r))
    value_passes j null rest path h = refl
    value_passes j (boolean b) rest path h = refl
    value_passes j (integer n) rest path h = refl
    value_passes j (number n) rest path h = refl
    value_passes j (text t) rest path h = refl

    items_pass :
        (xs : Items) (i : ℕ) (path : List Segment)
        → ((k : String) → InItems k xs → is_forbidden (lower k) ≡ false)
        → assert_safe_items lower xs i path ≡ none
    items_pass done i path h = refl
    items_pass (item v rest) i path h =
        rw (item_passes v rest (path ++ index i ∷ []) h)
          (items_pass rest (i + 1) path (λ k r. h k (in_tail r)))

    item_passes :
        (v : Json) (rest : Items) (path : List Segment)
        → ((k : String) → InItems k (item v rest) → is_forbidden (lower k) ≡ false)
        → assert_safe_item lower v path ≡ none
    item_passes (object fs) rest path h = allowed_passes fs path (λ k r. h k (at_head r))
    item_passes (array xs) rest path h = refl
    item_passes null rest path h = refl
    item_passes (boolean b) rest path h = refl
    item_passes (integer n) rest path h = refl
    item_passes (number n) rest path h = refl
    item_passes (text t) rest path h = refl

  -- The guard passes a payload exactly when no key of it, of a dict under it, or of a dict that
  -- stands directly in a list is a forbidden name: what a list holds in a list is not looked at.
  pub assert_safe_iff :
      (fs : Fields)
      → (assert_safe lower fs [] ≡ none)
        ↔ ((k : String) → Reaches k fs → is_forbidden (lower k) ≡ false)
  assert_safe_iff fs = (λ h k r. assert_safe-Reaches k fs h r, λ h. allowed_passes fs [] h)
