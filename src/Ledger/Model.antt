-- ===== src/Ledger/Model.antt =====
-- A concrete digest that has no collisions: a digest is one byte that is the whole input.
use zero_trace.Prelude.{
  ℕ, String, ◌≡◌, refl, ap, ◌↔◌, Bool, true, false, ◌&&◌, List, [], ◌∷◌, ◌++◌, map, arith, ◌==◌,
  codes,
}
use zero_trace.Ledger.Hashing.{Hashing}

-- A byte of the model digest is a code point or a whole list of bytes.
mutual
  pub data Symbol : Type 0 where
    point : ℕ → Symbol
    block : Symbols → Symbol

  pub data Symbols : Type 0 where
    nil : Symbols
    cons : Symbol → Symbols → Symbols

unfoldable mutual
  pub symbol_eq : Symbol → Symbol → Bool
  symbol_eq (point a) (point b) = a == b
  symbol_eq (block xs) (block ys) = symbols_eq xs ys
  symbol_eq _ _ = false

  pub symbols_eq : Symbols → Symbols → Bool
  symbols_eq nil nil = true
  symbols_eq (cons x xs) (cons y ys) = symbol_eq x y && symbols_eq xs ys
  symbols_eq _ _ = false

mutual
  unfolding symbol_eq symbols_eq

  symbol_eq_iff : (x y : Symbol) → (symbol_eq x y ≡ true) ↔ (x ≡ y)
  symbol_eq_iff (point a) (point b) = ground arith
  symbol_eq_iff (point a) (block ys) = ground arith
  symbol_eq_iff (block xs) (point b) = ground arith
  symbol_eq_iff (block xs) (block ys) = ground (arith, symbols_eq_iff xs ys)

  symbols_eq_iff : (xs ys : Symbols) → (symbols_eq xs ys ≡ true) ↔ (xs ≡ ys)
  symbols_eq_iff nil nil = ground arith
  symbols_eq_iff nil (cons y ys) = ground arith
  symbols_eq_iff (cons x xs) nil = ground arith
  symbols_eq_iff (cons x xs) (cons y ys) = ground (arith, symbol_eq_iff x y, symbols_eq_iff xs ys)

unfoldable pub pack : List Symbol → Symbols
pack [] = nil
pack (x ∷ xs) = cons x (pack xs)

pack_injective : (xs ys : List Symbol) → pack xs ≡ pack ys → xs ≡ ys
unfolding pack
pack_injective [] [] e = refl
pack_injective [] (y ∷ ys) e = cc
pack_injective (x ∷ xs) [] e = cc
pack_injective (x ∷ xs) (y ∷ ys) e = ground (arith, pack_injective xs ys)

unfoldable pub list_eq : List Symbol → List Symbol → Bool
unfolding pack symbols_eq symbol_eq
list_eq xs ys = symbols_eq (pack xs) (pack ys)

pub list_eq_iff : (xs ys : List Symbol) → (list_eq xs ys ≡ true) ↔ (xs ≡ ys)
unfolding list_eq
list_eq_iff xs ys = (
  λ h. pack_injective xs ys ((symbols_eq_iff (pack xs) (pack ys)).0 h),
  λ e. (symbols_eq_iff (pack xs) (pack ys)).1 (ap pack e),
)

abbrev pub spell : String → List Symbol
spell s = map point (codes s)

unfoldable pub model : Hashing
unfolding list_eq pack
model = record {
  Byte = Symbol;
  bytes_eq = list_eq;
  bytes_eq_iff = list_eq_iff;
  sha256 = λ x. block (pack x) ∷ [];
  width = 1;
  length-sha256 = λ x. refl;
  utf8 = spell;
  canonical_json = λ t e p ts. spell t ++ (spell e ++ spell ts);
}
