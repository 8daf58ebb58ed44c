-- ===== src/India/Verhoeff.antt =====
-- The Verhoeff checksum of gateway/detectors/india_id.py: `_D`, `_P`, `verhoeff_ok`.
use mathlib.Core.List.{reverse}
use zero_trace.Prelude.{ℕ, ◌+◌, ◌%◌, Bool, List, [], ◌∷◌, ◌==◌, get_or}

row : (a b c d e f g h i j : ℕ) → List ℕ
row a b c d e f g h i j = a ∷ b ∷ c ∷ d ∷ e ∷ f ∷ g ∷ h ∷ i ∷ j ∷ []

unfoldable pub d_table : List (List ℕ)
unfolding row
d_table =
    row 0 1 2 3 4 5 6 7 8 9
    ∷ row 1 2 3 4 0 6 7 8 9 5
    ∷ row 2 3 4 0 1 7 8 9 5 6
    ∷ row 3 4 0 1 2 8 9 5 6 7
    ∷ row 4 0 1 2 3 9 5 6 7 8
    ∷ row 5 9 8 7 6 0 4 3 2 1
    ∷ row 6 5 9 8 7 1 0 4 3 2
    ∷ row 7 6 5 9 8 2 1 0 4 3
    ∷ row 8 7 6 5 9 3 2 1 0 4
    ∷ row 9 8 7 6 5 4 3 2 1 0
    ∷ []

unfoldable pub p_table : List (List ℕ)
unfolding row
p_table =
    row 0 1 2 3 4 5 6 7 8 9
    ∷ row 1 5 7 6 2 8 3 0 9 4
    ∷ row 5 8 0 3 7 9 6 1 4 2
    ∷ row 8 9 1 6 0 4 3 5 2 7
    ∷ row 9 4 5 3 1 2 6 8 7 0
    ∷ row 4 2 8 6 5 7 3 9 0 1
    ∷ row 2 7 9 3 8 0 6 4 1 5
    ∷ row 7 0 4 6 9 1 3 2 5 8
    ∷ []

-- `_D[a][b]` and `_P[i][n]`.
unfoldable pub d_at : ℕ → ℕ → ℕ
unfolding d_table
d_at a b = get_or (get_or d_table a []) b 0

unfoldable pub p_at : ℕ → ℕ → ℕ
unfolding p_table
p_at i n = get_or (get_or p_table i []) n 0

-- The loop, over the digits that are left in reverse, with their index and the check so far.
unfoldable pub verhoeff_loop : ℕ → ℕ → List ℕ → ℕ
verhoeff_loop i check [] = check
verhoeff_loop i check (n ∷ ns) = verhoeff_loop (i + 1) (d_at check (p_at (i % 8) n)) ns

unfoldable pub verhoeff_ok : List ℕ → Bool
unfolding verhoeff_loop d_at p_at
verhoeff_ok digits = verhoeff_loop 0 0 (reverse digits) == 0
