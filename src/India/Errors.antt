-- ===== src/India/Errors.antt =====
-- The errors that `verhoeff_ok` of gateway/detectors/india_id.py catches.
use mathlib.Core.List.{reverse, reverse-append, reverse-cons, append_assoc}
use zero_trace.Prelude.{
  ℕ, ◌+◌, ◌%◌, ◌<◌, ◌≡◌, sym, ap, ◌∙◌, true, List, [], ◌∷◌, ◌++◌, arith, length, ==→eq, All,
  All-join,
}
use zero_trace.India.Verhoeff.{d_at, p_at, verhoeff_loop, verhoeff_ok}
use zero_trace.India.Dihedral.{
  d_at-lt, p_at-lt, d_at_cancel_left, d_at_cancel_right, d_at_assoc, p_at_injective, swap_separates,
}

-- Decimal digits.
abbrev pub Digits : List ℕ → Type 0
Digits = All (λ n. n < 10)

pub loop-append :
    (i c : ℕ) (xs ys : List ℕ)
    → verhoeff_loop i c (xs ++ ys) ≡ verhoeff_loop (i + length xs) (verhoeff_loop i c xs) ys
unfolding verhoeff_loop
loop-append i c [] ys = ap (λ k. verhoeff_loop k c ys) (omega arith)
loop-append i c (x ∷ xs) ys =
    loop-append (i + 1) (d_at c (p_at (i % 8) x)) xs ys
    ∙ ap (λ k. verhoeff_loop k (verhoeff_loop (i + 1) (d_at c (p_at (i % 8) x)) xs) ys)
        (omega arith)

pub loop-lt : (i c : ℕ) (xs : List ℕ) → c < 10 → Digits xs → verhoeff_loop i c xs < 10
unfolding verhoeff_loop
loop-lt i c [] hc h = hc
loop-lt i c (x ∷ xs) hc h = loop-lt (i + 1) _ xs (d_at-lt c _ hc (p_at-lt i x h.0)) h.1

-- The rest of a number tells different checks apart.
pub loop_injective :
    (i c c' : ℕ) (xs : List ℕ)
    → c < 10
    → c' < 10
    → Digits xs
    → verhoeff_loop i c xs ≡ verhoeff_loop i c' xs
    → c ≡ c'
unfolding verhoeff_loop
loop_injective i c c' [] hc hc' h e = e
loop_injective i c c' (x ∷ xs) hc hc' h e =
    d_at_cancel_right c c' (p_at (i % 8) x) hc hc' (p_at-lt i x h.0) (
      loop_injective (i + 1) _ _ xs (d_at-lt c _ hc (p_at-lt i x h.0))
        (d_at-lt c' _ hc' (p_at-lt i x h.0)) h.1 e)

reverse-Digits : (xs : List ℕ) → Digits xs → Digits (reverse xs)
reverse-Digits [] h = tt
reverse-Digits (x ∷ xs) h =
    rw reverse-cons (All-join (λ n. n < 10) (reverse xs) (x ∷ []) (reverse-Digits xs h.1) (h.0, tt))

module _ (us vs : List ℕ) (hu : Digits us) (hv : Digits vs) (a b : ℕ) (ha : a < 10)
    (hb : b < 10) where
  abbrev k : ℕ
  k = 0 + length us

  abbrev check : ℕ
  check = verhoeff_loop 0 0 us

  check-lt : check < 10
  check-lt = loop-lt 0 0 us (omega arith) hu

  -- Changing one digit changes the check.
  changed : verhoeff_loop 0 0 (us ++ a ∷ vs) ≡ verhoeff_loop 0 0 (us ++ b ∷ vs) → a ≡ b
  unfolding verhoeff_loop
  changed e = p_at_injective k a b ha hb (
      d_at_cancel_left _ _ check (p_at-lt k a ha) (p_at-lt k b hb) check-lt (
        loop_injective (k + 1) _ _ vs (d_at-lt _ _ check-lt (p_at-lt k a ha))
          (d_at-lt _ _ check-lt (p_at-lt k b hb)) hv
          (sym (loop-append 0 0 us (a ∷ vs)) ∙ e ∙ loop-append 0 0 us (b ∷ vs))))

  two-lt :
      (x y : ℕ) → x < 10 → y < 10 → d_at (d_at check (p_at (k % 8) x)) (p_at ((k + 1) % 8) y) < 10
  two-lt x y hx hy = d_at-lt _ _ (d_at-lt _ _ check-lt (p_at-lt k x hx)) (p_at-lt (k + 1) y hy)

  regroup :
      (x y : ℕ)
      → x < 10
      → y < 10
      → d_at (d_at check (p_at (k % 8) x)) (p_at ((k + 1) % 8) y)
        ≡ d_at check (d_at (p_at (k % 8) x) (p_at ((k + 1) % 8) y))
  regroup x y hx hy = d_at_assoc _ _ _ check-lt (p_at-lt k x hx) (p_at-lt (k + 1) y hy)

  -- Exchanging two adjacent digits changes the check, unless they are equal.
  exchanged :
      verhoeff_loop 0 0 (us ++ (a ∷ b ∷ vs)) ≡ verhoeff_loop 0 0 (us ++ (b ∷ a ∷ vs)) → a ≡ b
  unfolding verhoeff_loop
  exchanged e = swap_separates k a b ha hb (
      d_at_cancel_left _ _ check (d_at-lt _ _ (p_at-lt k a ha) (p_at-lt (k + 1) b hb))
        (d_at-lt _ _ (p_at-lt k b hb) (p_at-lt (k + 1) a ha)) check-lt
        (sym (regroup a b ha hb)
          ∙ loop_injective (k + 1 + 1) _ _ vs (two-lt a b ha hb) (two-lt b a hb ha) hv
              (sym (loop-append 0 0 us (a ∷ b ∷ vs)) ∙ e ∙ loop-append 0 0 us (b ∷ a ∷ vs))
          ∙ regroup b a hb ha))

zero_check : (xs : List ℕ) → verhoeff_ok xs ≡ true → verhoeff_loop 0 0 (reverse xs) ≡ 0
unfolding verhoeff_ok
zero_check xs h = ==→eq _ 0 h

module _ (xs ys : List ℕ) (hx : Digits xs) (hy : Digits ys) (a b : ℕ) (ha : a < 10)
    (hb : b < 10) where
  reverse_middle : (x : ℕ) → reverse (xs ++ x ∷ ys) ≡ reverse ys ++ x ∷ reverse xs
  reverse_middle x = simp (reverse-append, reverse-cons, append_assoc)

  reverse_pair : (x y : ℕ) → reverse (xs ++ (x ∷ y ∷ ys)) ≡ reverse ys ++ (y ∷ x ∷ reverse xs)
  reverse_pair x y = simp (reverse-append, reverse-cons, append_assoc)

  -- Of two digit strings that differ in one digit at most one passes the checksum.
  pub verhoeff_ok-changed :
      verhoeff_ok (xs ++ a ∷ ys) ≡ true → verhoeff_ok (xs ++ b ∷ ys) ≡ true → a ≡ b
  verhoeff_ok-changed p q =
      changed (reverse ys) (reverse xs) (reverse-Digits ys hy) (reverse-Digits xs hx) a b ha hb (
        ap (verhoeff_loop 0 0) (sym (reverse_middle a))
        ∙ zero_check _ p
        ∙ sym (zero_check _ q)
        ∙ ap (verhoeff_loop 0 0) (reverse_middle b))

  -- Of two digit strings that differ by an exchange of two adjacent digits, which are not equal, at
  -- most one passes the checksum.
  pub verhoeff_ok-exchanged :
      verhoeff_ok (xs ++ (a ∷ b ∷ ys)) ≡ true → verhoeff_ok (xs ++ (b ∷ a ∷ ys)) ≡ true → a ≡ b
  verhoeff_ok-exchanged p q = sym (
      exchanged (reverse ys) (reverse xs) (reverse-Digits ys hy) (reverse-Digits xs hx) b a hb ha (
        ap (verhoeff_loop 0 0) (sym (reverse_pair a b))
        ∙ zero_check _ p
        ∙ sym (zero_check _ q)
        ∙ ap (verhoeff_loop 0 0) (reverse_pair b a)))
