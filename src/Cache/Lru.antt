-- ===== src/Cache/Lru.antt =====
-- `InMemorySpanCache` of gateway/base/cache.py, over any type of findings.
use zero_trace.Prelude.{
  ℕ, ◌+◌, String, Option, none, some, List, [], ◌∷◌, ◌++◌, ltb, str_eq, length, if◌then◌else◌,
}

module _ {ℓ} {A : Type ℓ} where
  -- `self._d.get(key)`
  unfoldable pub find : String → List (String × A) → Option A
  find k [] = none
  find k ((j, a) ∷ es) = if str_eq j k then some a else find k es

  -- The entries without a key.
  unfoldable pub without : String → List (String × A) → List (String × A)
  without k [] = []
  without k ((j, a) ∷ es) = let rest = without k es in if str_eq j k then rest else (j, a) ∷ rest

  -- `while len(self._d) > self._max: self._d.popitem(last=False)`
  unfoldable pub evict : ℕ → List (String × A) → List (String × A)
  evict max [] = []
  evict max (e ∷ es) = let rest = evict max es in if ltb max (length (e ∷ es)) then rest else e ∷ es

-- `_d` in its order, `_max` and `stats`.
pub record Cache {ℓ} (A : Type ℓ) : Type ℓ where
  pub entries : List (String × A)
  pub max : ℕ
  pub hits : ℕ
  pub misses : ℕ

module _ {ℓ} {A : Type ℓ} where
  -- `get`: a hit moves its key to the end.
  unfoldable pub lookup : String → Cache A → Option A × Cache A
  unfolding find without
  lookup k c = elim (find k c.entries) [
    | none ↦ (none, record c { misses = c.misses + 1 })
    | some a ↦
        (some a, record c { entries = without k c.entries ++ (k, a) ∷ []; hits = c.hits + 1 })
  ]

  -- `put`
  unfoldable pub store : String → A → Cache A → Cache A
  unfolding evict without
  store k a c = record c { entries = evict c.max (without k c.entries ++ (k, a) ∷ []) }

  -- `clear`
  unfoldable pub clear : Cache A → Cache A
  clear c = record c { entries = []; hits = 0; misses = 0 }
