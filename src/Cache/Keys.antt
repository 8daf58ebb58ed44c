-- ===== src/Cache/Keys.antt =====
-- The invariant of `InMemorySpanCache` of gateway/base/cache.py: one entry for a key, and at most the
-- maximum of them.
use zero_trace.Prelude.{
  ℕ, ◌≤◌, String, ◌≡◌, refl, ◌∙◌, false, none, some, List, [], ◌∷◌, ◌++◌, arith, ltb, str_eq,
  str_eq_refl, eq_iff, length, Bool-cases, Option-cases, inl, inr,
}
use zero_trace.Cache.Lru.{find, without, evict, Cache, lookup, store}

module _ {A : Type 0} where
  abbrev pub OneEach : List (String × A) → Type 0
  OneEach [] = Unit
  OneEach ((k, a) ∷ es) = (find k es ≡ none) × OneEach es

  find-without :
      (k j : String) (es : List (String × A)) → find j es ≡ none → find j (without k es) ≡ none
  unfolding find without
  find-without k j [] h = refl
  find-without k j ((i, a) ∷ es) h = ground (arith, find-without k j es)

  pub find-without-same : (k : String) (es : List (String × A)) → find k (without k es) ≡ none
  unfolding find without
  find-without-same k [] = refl
  find-without-same k ((i, a) ∷ es) = ground (arith, find-without-same k es)

  without-OneEach : (k : String) (es : List (String × A)) → OneEach es → OneEach (without k es)
  unfolding without
  without-OneEach k [] h = tt
  without-OneEach k ((i, a) ∷ es) h = elim (Bool-cases (str_eq i k)) [
    | inl same ↦ rw (without, same) (without-OneEach k es h.1)
    | inr other ↦ rw (without, other) (find-without k i es h.0, without-OneEach k es h.1)
  ]

  find-append :
      (j k : String) (a : A) (es : List (String × A))
      → find j (es ++ (k, a) ∷ [])
        ≡ elim (find j es) [ some b ↦ some b | none ↦ find j ((k, a) ∷ []) ]
  unfolding find
  find-append j k a [] = refl
  find-append j k a ((i, b) ∷ es) = ground (arith, find-append j k a es)

  append-OneEach :
      (k : String) (a : A) (es : List (String × A))
      → find k es ≡ none
      → OneEach es
      → OneEach (es ++ (k, a) ∷ [])
  unfolding find
  append-OneEach k a [] n h = (refl, tt)
  append-OneEach k a ((i, b) ∷ es) n h = elim (Bool-cases (str_eq i k)) [
    | inl same ↦ absurd (ground arith)
    | inr other ↦ (
      ground (arith, find-append i k a es, eq_iff i k, eq_iff k i, h.0),
      append-OneEach k a es (ground arith) h.1,
    )
  ]

  evict-OneEach : (m : ℕ) (es : List (String × A)) → OneEach es → OneEach (evict m es)
  unfolding evict
  evict-OneEach m [] h = tt
  evict-OneEach m (e ∷ es) h = elim (Bool-cases (ltb m (length (e ∷ es)))) [
    | inl more ↦ rw (evict, more) (evict-OneEach m es h.1)
    | inr fits ↦ rw (evict, fits) h
  ]

  length-evict : (m : ℕ) (es : List (String × A)) → length (evict m es) ≤ m
  unfolding evict
  length-evict m [] = omega arith
  length-evict m (e ∷ es) = ground (arith, length-evict m es)

  -- With room for one, the last entry is not evicted.
  evict-last :
      (m : ℕ) (k : String) (a : A) (es : List (String × A))
      → 1 ≤ m
      → find k es ≡ none
      → find k (evict m (es ++ (k, a) ∷ [])) ≡ some a
  unfolding evict find
  evict-last m k a [] h n = ground (arith, str_eq_refl k)
  evict-last m k a ((i, b) ∷ es) h n =
      ground (arith, str_eq_refl k, evict-last m k a es, find-append k k a es)

  -- A cache with one entry for each key still has one after `put`, and at most its maximum; the
  -- stored value is found under its key if the maximum is not zero.
  pub store-OneEach :
      (k : String) (a : A) (c : Cache A)
      → OneEach c.entries
      → OneEach (store k a c).entries
        × (length (store k a c).entries ≤ c.max)
        × (1 ≤ c.max → find k (store k a c).entries ≡ some a)
  unfolding store
  store-OneEach k a c h = (
    evict-OneEach c.max (without k c.entries ++ (k, a) ∷ []) (
        append-OneEach k a (without k c.entries) (find-without-same k c.entries)
          (without-OneEach k c.entries h)),
    length-evict c.max (without k c.entries ++ (k, a) ∷ []),
    λ room. evict-last c.max k a (without k c.entries) room (find-without-same k c.entries),
  )

  find-without-other :
      (k j : String) (es : List (String × A))
      → str_eq k j ≡ false
      → find j (without k es) ≡ find j es
  unfolding find without
  find-without-other k j [] d = refl
  find-without-other k j ((i, a) ∷ es) d =
      ground (arith, find-without-other k j es, eq_iff i k, eq_iff i j, eq_iff k j)

  find-moved :
      (k j : String) (a : A) (es : List (String × A))
      → find k es ≡ some a
      → find j (without k es ++ (k, a) ∷ []) ≡ find j es
  unfolding find
  find-moved k j a es e =
      find-append j k a (without k es)
      ∙ ground (arith, find-without-other k j es, find-without-same k es, eq_iff k j)

  -- `get` answers with what is stored under the key, and leaves one entry for each key and the
  -- answer for every key as they were.
  pub lookup-OneEach :
      (k j : String) (c : Cache A)
      → OneEach c.entries
      → ((lookup k c).0 ≡ find k c.entries)
        × OneEach (lookup k c).1.entries
        × (find j (lookup k c).1.entries ≡ find j c.entries)
  unfolding lookup
  lookup-OneEach k j c h = elim (Option-cases (find k c.entries)) [
    | inl e ↦ rw (lookup, e) (refl, h, refl)
    | inr (a, e) ↦
        rw (lookup, e)
          (
            refl,
            append-OneEach k a (without k c.entries) (find-without-same k c.entries)
                (without-OneEach k c.entries h),
            find-moved k j a c.entries e,
          )
  ]
