-- ===== src/India/Dihedral.antt =====
-- The facts about the Verhoeff tables of gateway/detectors/india_id.py, by evaluation.
use zero_trace.Prelude.{
  ℕ, zero, suc, ◌%◌, ◌<◌, ◌+◌, ◌≡◌, refl, Bool, true, not, ◌&&◌, ◌||◌, arith, ◌==◌, ltb, ltb→lt,
  ==→eq,
}
use zero_trace.India.Verhoeff.{d_at, p_at}

-- Every number below a bound passes a test.
all_below : ℕ → (ℕ → Bool) → Bool
all_below zero p = true
all_below (suc n) p = p n && all_below n p

all_below_lem : (n : ℕ) (p : ℕ → Bool) (x : ℕ) → all_below n p ≡ true → x < n → p x ≡ true
unfolding all_below
all_below_lem zero p x h lt = absurd (omega arith)
all_below_lem (suc n) p x h lt = ground (arith, all_below_lem n p x)

all_pairs : ℕ → ℕ → (ℕ → ℕ → Bool) → Bool
unfolding all_below
all_pairs m n p = all_below m (λ a. all_below n (p a))

all_pairs_lem :
    (m n : ℕ) (p : ℕ → ℕ → Bool) (a b : ℕ) → all_pairs m n p ≡ true → a < m → b < n → p a b ≡ true
unfolding all_pairs
all_pairs_lem m n p a b h ha hb =
    all_below_lem n (p a) b (all_below_lem m (λ a. all_below n (p a)) a h ha) hb

all_triples : ℕ → (ℕ → ℕ → ℕ → Bool) → Bool
unfolding all_pairs
all_triples n p = all_below n (λ a. all_pairs n n (p a))

all_triples_lem :
    (n : ℕ) (p : ℕ → ℕ → ℕ → Bool) (a b c : ℕ)
    → all_triples n p ≡ true
    → a < n
    → b < n
    → c < n
    → p a b c ≡ true
unfolding all_triples
all_triples_lem n p a b c h ha hb hc =
    all_pairs_lem n n (p a) b c (all_below_lem n (λ a. all_pairs n n (p a)) a h ha) hb hc

-- `x ≡ y` implies `a ≡ b`, as a test.
separates : ℕ → ℕ → ℕ → ℕ → Bool
separates x y a b = not (x == y) || (a == b)

separates_lem : (x y a b : ℕ) → separates x y a b ≡ true → x ≡ y → a ≡ b
unfolding separates
separates_lem x y a b h e = ground arith

range_table : all_pairs 10 10 (λ a b. ltb (d_at a b) 10) ≡ true
unfolding all_pairs d_at
range_table = refl

permuted_table : all_pairs 8 10 (λ i a. ltb (p_at i a) 10) ≡ true
unfolding all_pairs p_at
permuted_table = refl

left_table : all_triples 10 (λ c a b. separates (d_at a c) (d_at b c) a b) ≡ true
unfolding all_triples d_at separates
left_table = refl

right_table : all_triples 10 (λ c a b. separates (d_at c a) (d_at c b) a b) ≡ true
unfolding all_triples d_at separates
right_table = refl

assoc_table : all_triples 10 (λ a b c. d_at (d_at a b) c == d_at a (d_at b c)) ≡ true
unfolding all_triples d_at
assoc_table = refl

injective_test : ℕ → ℕ → ℕ → Bool
unfolding separates
injective_test i a b = separates (p_at i a) (p_at i b) a b

swap_test : ℕ → ℕ → ℕ → Bool
unfolding separates
swap_test i a b =
    separates (d_at (p_at i a) (p_at ((i + 1) % 8) b)) (d_at (p_at i b) (p_at ((i + 1) % 8) a)) a b

injective_table : all_below 8 (λ i. all_pairs 10 10 (injective_test i)) ≡ true
unfolding all_pairs p_at injective_test
injective_table = refl

swap_table : all_below 8 (λ i. all_pairs 10 10 (swap_test i)) ≡ true
unfolding all_pairs d_at p_at swap_test
swap_table = refl

pub d_at-lt : (a b : ℕ) → a < 10 → b < 10 → d_at a b < 10
d_at-lt a b ha hb =
    ltb→lt _ 10 (all_pairs_lem 10 10 (λ a b. ltb (d_at a b) 10) a b range_table ha hb)

pub p_at-lt : (i a : ℕ) → a < 10 → p_at (i % 8) a < 10
p_at-lt i a ha =
    ltb→lt _ 10
      (all_pairs_lem 8 10 (λ i a. ltb (p_at i a) 10) (i % 8) a permuted_table (omega arith) ha)

-- The table of `_D` is that of a group: cancellation on both sides, and associativity.
module _ (a b c : ℕ) (ha : a < 10) (hb : b < 10) (hc : c < 10) where
  pub d_at_cancel_right : d_at a c ≡ d_at b c → a ≡ b
  d_at_cancel_right e =
      separates_lem _ _ a b
        (all_triples_lem 10 (λ c a b. separates (d_at a c) (d_at b c) a b) c a b left_table hc ha
          hb)
        e

  pub d_at_cancel_left : d_at c a ≡ d_at c b → a ≡ b
  d_at_cancel_left e =
      separates_lem _ _ a b
        (all_triples_lem 10 (λ c a b. separates (d_at c a) (d_at c b) a b) c a b right_table hc ha
          hb)
        e

  pub d_at_assoc : d_at (d_at a b) c ≡ d_at a (d_at b c)
  d_at_assoc = ==→eq _ _ (
      all_triples_lem 10 (λ a b c. d_at (d_at a b) c == d_at a (d_at b c)) a b c assoc_table ha hb
        hc)

module _ (i a b : ℕ) (ha : a < 10) (hb : b < 10) where
  pub p_at_injective : p_at (i % 8) a ≡ p_at (i % 8) b → a ≡ b
  unfolding injective_test
  p_at_injective e =
      separates_lem _ _ a b
        (all_pairs_lem 10 10 (injective_test (i % 8)) a b
          (all_below_lem 8 (λ k. all_pairs 10 10 (injective_test k)) (i % 8) injective_table
            (omega arith))
          ha hb)
        e

  swap_at :
      (k : ℕ)
      → k ≡ (i % 8 + 1) % 8
      → d_at (p_at (i % 8) a) (p_at k b) ≡ d_at (p_at (i % 8) b) (p_at k a)
      → a ≡ b
  unfolding swap_test
  swap_at k ek e =
      separates_lem _ _ a b
        (all_pairs_lem 10 10 (swap_test (i % 8)) a b
          (all_below_lem 8 (λ k. all_pairs 10 10 (swap_test k)) (i % 8) swap_table (omega arith)) ha
          hb)
        (rw ek at e)

  -- Exchanging two neighbours changes their product.
  pub swap_separates :
      d_at (p_at (i % 8) a) (p_at ((i + 1) % 8) b) ≡ d_at (p_at (i % 8) b) (p_at ((i + 1) % 8) a)
      → a ≡ b
  swap_separates = swap_at ((i + 1) % 8) (omega arith)
