-- ===== src/Chains/Linked.antt =====
-- The hash walk of Control-DB/zerotrace/ledger/chain.py, row by row.
use mathlib.Core.Path.{subst}
use mathlib.Core.Option.{some-injective}
use zero_trace.Prelude.{
  ℕ, ◌+◌, String, ◌≡◌, refl, sym, ◌∙◌, some, List, [], ◌∷◌, ◌++◌, arith, length,
}
use zero_trace.Ledger.Hashing.{Hashing}
use zero_trace.Chains.Rows
use zero_trace.Chains.Rows.{genesis, record_digest, last_of, prev_hash_of, new_row}
use zero_trace.Chains.Verify.{ChainResult, clean, walk_hashes}

module _ (h : Hashing) (hex : List h.Byte → String) (row_json : String → ℕ → String → List h.Byte)
    (t : String) where
  open h use {Byte, bytes_eq, bytes_eq_iff, sha256}

  abbrev pub R : Type 0
  R = Rows.Row h hex

  abbrev pub walk : ℕ → List Byte → List R → ChainResult
  walk = walk_hashes h hex row_json t

  -- A row that passes both tests of the walk after a hash.
  pub record Links (prev : List Byte) (r : R) : Type 0 where
    pub prev_hash : r.prev_hash ≡ prev
    pub record_hash : record_digest h hex prev t r.event_type r.payload_json r.ts ≡ r.record_hash

  walk-Links :
      (i : ℕ) (prev : List Byte) (r : R) (rs : List R) (n : ℕ)
      → walk i prev (r ∷ rs) ≡ clean n
      → Links prev r × (walk (i + 1) r.record_hash rs ≡ clean n)
  unfolding walk_hashes
  walk-Links i prev r rs n p = ground (
    arith,
    bytes_eq_iff r.prev_hash prev,
    bytes_eq_iff (record_digest h hex prev t r.event_type r.payload_json r.ts) r.record_hash,
  )

  Links-walk :
      (i : ℕ) (prev : List Byte) (r : R) (rs : List R)
      → Links prev r
      → walk i prev (r ∷ rs) ≡ walk (i + 1) r.record_hash rs
  unfolding walk_hashes
  Links-walk i prev r rs l = ground (
    arith,
    bytes_eq_iff r.prev_hash prev,
    bytes_eq_iff (record_digest h hex prev t r.event_type r.payload_json r.ts) r.record_hash,
  )

  -- The hash that a row after these must name.
  abbrev pub end_hash : List Byte → List R → List Byte
  end_hash prev [] = prev
  end_hash prev (r ∷ rs) = end_hash r.record_hash rs

  pub count-walk :
      (i : ℕ) (prev : List Byte) (rs : List R) (n : ℕ)
      → walk i prev rs ≡ clean n
      → n ≡ i + length rs
  unfolding walk_hashes
  count-walk i prev [] n p = ground arith
  count-walk i prev (r ∷ rs) n p =
      let (l, q) = walk-Links i prev r rs n p in
      omega (arith, count-walk (i + 1) r.record_hash rs n q)

  walk-one :
      (i : ℕ) (prev : List Byte) (x : R) (n : ℕ)
      → walk i prev [] ≡ clean n
      → Links prev x
      → walk i prev (x ∷ []) ≡ clean (n + 1)
  unfolding walk_hashes
  walk-one i prev x n p l = Links-walk i prev x [] l ∙ ground arith

  pub walk-append :
      (i : ℕ) (prev : List Byte) (rs : List R) (x : R) (n : ℕ)
      → walk i prev rs ≡ clean n
      → Links (end_hash prev rs) x
      → walk i prev (rs ++ x ∷ []) ≡ clean (n + 1)
  walk-append i prev [] x n p l = walk-one i prev x n p l
  walk-append i prev (r ∷ rs) x n p l =
      let (k, q) = walk-Links i prev r rs n p in
      Links-walk i prev r (rs ++ x ∷ []) k ∙ walk-append (i + 1) r.record_hash rs x n q l

  pub end_hash-append :
      (prev : List Byte) (rs : List R) (x : R) → end_hash prev (rs ++ x ∷ []) ≡ x.record_hash
  end_hash-append prev [] x = refl
  end_hash-append prev (r ∷ rs) x = end_hash-append r.record_hash rs x

  pub prev_hash_of-last :
      (rs : List R) → prev_hash_of h hex t (last_of h hex rs) ≡ end_hash (genesis h hex t) rs
  prev_hash_of-last [] = refl
  prev_hash_of-last (r ∷ []) = refl
  prev_hash_of-last (r ∷ s ∷ rs) = after r s rs
    where
      after :
          (r s : R) (rs : List R)
          → prev_hash_of h hex t (last_of h hex (s ∷ rs)) ≡ end_hash s.record_hash rs
      after r s [] = refl
      after r s (q ∷ qs) = after s q qs

  Links-digest :
      (prev : List Byte) (r : R) → Links prev r → (x : List Byte) × (r.record_hash ≡ sha256 x)
  unfolding record_digest
  Links-digest prev r l = (_, sym l.record_hash)

  -- The last hash of a chain that verifies is a digest.
  pub last_of-digest :
      (i : ℕ) (prev : List Byte) (rs : List R) (n : ℕ) (r : R)
      → walk i prev rs ≡ clean n
      → last_of h hex rs ≡ some r
      → (x : List Byte) × (r.record_hash ≡ sha256 x)
  last_of-digest i prev [] n r p e = absurd (ground arith)
  last_of-digest i prev (s ∷ []) n r p e =
      subst (λ (q : R). (x : List Byte) × (q.record_hash ≡ sha256 x)) (some-injective _ _ e)
        (Links-digest prev s (walk-Links i prev s [] n p).0)
  last_of-digest i prev (s ∷ q ∷ rs) n r p e =
      last_of-digest (i + 1) s.record_hash (q ∷ rs) n r (walk-Links i prev s (q ∷ rs) n p).1 e
