-- ===== src/Cache/Entries.antt =====
-- What holds of every entry of the span cache of gateway/base/cache.py, through its operations.
use mathlib.Core.Path.{subst}
use mathlib.Core.Option.{some-injective}
use zero_trace.Prelude.{
  ℕ, String, ◌≡◌, inl, inr, some, List, [], ◌∷◌, ◌++◌, arith, ltb, length, str_eq, eq_iff, All,
  All-join, Bool-cases, Option-cases,
}
use zero_trace.Cache.Lru.{Cache, find, without, evict, lookup, store}

module _ {ℓ} {A : Type ℓ} (P : String × A → Type ℓ) where
  All-without : (k : String) (es : List (String × A)) → All P es → All P (without k es)
  unfolding without
  All-without k [] all = tt
  All-without k ((j, a) ∷ es) (p, all) = elim (Bool-cases (str_eq j k)) [
    | inl same ↦ rw (without, same) (All-without k es all)
    | inr other ↦ rw (without, other) (p, All-without k es all)
  ]

  All-evict : (max : ℕ) (es : List (String × A)) → All P es → All P (evict max es)
  unfolding evict
  All-evict max [] all = tt
  All-evict max (e ∷ es) (p, all) = elim (Bool-cases (ltb max (length (e ∷ es)))) [
    | inl more ↦ rw (evict, more) (All-evict max es all)
    | inr fits ↦ rw (evict, fits) (p, all)
  ]

  pub All-find :
      (k : String) (es : List (String × A)) (a : A) → All P es → find k es ≡ some a → P (k, a)
  unfolding find
  All-find k [] a all e = absurd (ground arith)
  All-find k ((j, b) ∷ es) a (p, all) e = elim (Bool-cases (str_eq j k)) [
    | inl same ↦
        subst (λ x. P (x, a)) ((eq_iff j k).0 same)
          (subst (λ y. P (j, y)) (some-injective _ _ (rw (find, same) at e)) p)
    | inr other ↦ All-find k es a all (rw (find, other) at e)
  ]

  pub lookup-All : (k : String) (c : Cache A) → All P c.entries → All P (lookup k c).1.entries
  unfolding lookup
  lookup-All k c ok = elim (Option-cases (find k c.entries)) [
    | inl miss ↦ rw (lookup, miss) ok
    | inr (fs, hit) ↦
        rw (lookup, hit)
          (All-join P (without k c.entries) ((k, fs) ∷ []) (All-without k c.entries ok)
            (All-find k c.entries fs ok hit, tt))
  ]

  pub store-All :
      (k : String) (a : A) (c : Cache A) → All P c.entries → P (k, a) → All P (store k a c).entries
  unfolding store
  store-All k a c ok fits =
      All-evict c.max (without k c.entries ++ (k, a) ∷ [])
        (All-join P (without k c.entries) ((k, a) ∷ []) (All-without k c.entries ok) (fits, tt))
