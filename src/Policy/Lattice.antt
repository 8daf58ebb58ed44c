-- ===== src/Policy/Lattice.antt =====
-- The action lattice of Control-DB/zerotrace/policy/engine.py: LATTICE, rank, strongest, is_weaker.
use zero_trace.Prelude.{ℕ, ◌≡◌, Bool, List, [], ◌∷◌, arith, ltb, if◌then◌else◌}
use zero_trace.Policy.{Action, allow, warn, tokenize, mask, block}

-- The position of an action in LATTICE.
abbrev pub rank : Action → ℕ
rank allow = 0
rank warn = 1
rank tokenize = 2
rank mask = 3
rank block = 4

-- `max(a, b, key=rank)`: the first of the two unless the second is larger.
abbrev pub stronger : Action → Action → Action
stronger a b = if ltb (rank a) (rank b) then b else a

-- `strongest(a, *rest)`
unfoldable pub strongest : Action → List Action → Action
strongest a [] = a
strongest a (b ∷ rest) = strongest (stronger a b) rest

unfoldable pub is_weaker : Action → Action → Bool
is_weaker candidate floor = ltb (rank candidate) (rank floor)

pub rank_injective : (a b : Action) → rank a ≡ rank b → a ≡ b
rank_injective a b h = ground arith
