-- ===== src/Cache/Tests.antt =====
-- Runs of the span cache.
use zero_trace.Prelude.{ℕ, ◌≡◌, refl, [], ◌∷◌}
use zero_trace.Cache.Lru.{Cache, find, lookup, store}
use zero_trace.Cache.Keys.{OneEach}

abbrev full : Cache ℕ
full = record { entries = ("a", 1) ∷ ("b", 2) ∷ []; max = 2; hits = 0; misses = 0 }

oldest_is_evicted : (store "c" 3 full).entries ≡ ("b", 2) ∷ ("c", 3) ∷ []
unfolding store
oldest_is_evicted = refl

hit_is_newest : (lookup "a" full).1.entries ≡ ("b", 2) ∷ ("a", 1) ∷ []
unfolding lookup
hit_is_newest = refl

full-OneEach : OneEach full.entries
unfolding find
full-OneEach = (refl, (refl, tt))
