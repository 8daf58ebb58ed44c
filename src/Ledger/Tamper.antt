-- ===== src/Ledger/Tamper.antt =====
-- What `verify` of gateway/ledger/chain.py detects, and what it cannot.
use mathlib.Core.Path.{subst}
use zero_trace.Prelude.{
  ℕ, ◌+◌, String, ◌≡◌, ◌≢◌, ◌⊎◌, inl, inr, Bool, true, false, Bool-cases, refl, sym, ap, ◌∙◌, List,
  [], ◌∷◌, ◌++◌, arith, length,
}
use zero_trace.Ledger.Hashing.{Hashing}
use zero_trace.Ledger.Chain.{genesis, hash_for, walk, verified, verify, read, Store}
use zero_trace.Ledger.Append.{Rec, Links, walk-Links, Links-walk, end_hash, count-walk}

module _ {ℓ} {A : Type ℓ} where
  -- Two splits of one list at the same place.
  pub append_split :
      (xs xs' ys ys' : List A)
      → length xs ≡ length xs'
      → xs ++ ys ≡ xs' ++ ys'
      → (xs ≡ xs') × (ys ≡ ys')
  append_split [] [] ys ys' l e = (refl, e)
  append_split [] (x ∷ xs') ys ys' l e = absurd (omega arith)
  append_split (x ∷ xs) [] ys ys' l e = absurd (omega arith)
  append_split (x ∷ xs) (y ∷ xs') ys ys' l e =
      let (p, q) = append_split xs xs' ys ys' (omega arith) (cc) in (cc, q)

not_both : (b : Bool) → b ≡ true → b ≡ false → ⊥
not_both b y n = ground (arith, y, n)

module _ (h : Hashing) where
  open h use {Byte, bytes_eq, bytes_eq_iff, canonical_json, sha256, width, length-sha256}

  abbrev pub content : Rec h → List Byte
  content r = canonical_json r.tenant_id r.event_type r.payload r.ts

  -- The bytes that a record's digest is taken of.
  abbrev pub hashed : Rec h → List Byte
  hashed r = r.prev_hash ++ content r

  -- Record by record: the ids, the canonical contents, the links and the digests are the same.
  abbrev pub SameChain : List (Rec h) → List (Rec h) → Type 0
  SameChain [] [] = Unit
  SameChain [] (s ∷ ss) = ⊥
  SameChain (r ∷ rs) [] = ⊥
  SameChain (r ∷ rs) (s ∷ ss) =
      (r.id ≡ s.id)
      × (content r ≡ content s)
      × (r.prev_hash ≡ s.prev_hash)
      × (r.record_hash ≡ s.record_hash)
      × SameChain rs ss

  -- At one place of the two chains, different bytes have one digest.
  abbrev pub Collide : List (Rec h) → List (Rec h) → Type 0
  Collide (r ∷ rs) (s ∷ ss) =
      ((hashed r ≢ hashed s) × (sha256 (hashed r) ≡ sha256 (hashed s))) ⊎ Collide rs ss
  Collide _ _ = ⊥

  same_or_not : (a b : List Byte) → (a ≡ b) ⊎ (a ≢ b)
  same_or_not a b = elim (Bool-cases (bytes_eq a b)) [
    | inl yes_ ↦ inl ((bytes_eq_iff a b).0 yes_)
    | inr no_ ↦ inr (λ e. not_both (bytes_eq a b) ((bytes_eq_iff a b).1 e) no_)
  ]

  digest-width :
      (e : ℕ) (prev : List Byte) (r : Rec h) → Links h e prev r → length r.record_hash ≡ width
  unfolding hash_for
  digest-width e prev r l = subst (λ d. length d ≡ width) l.record_hash (length-sha256 _)

  digest-hashed :
      (e : ℕ) (prev : List Byte) (r : Rec h) → Links h e prev r → sha256 (hashed r) ≡ r.record_hash
  unfolding hash_for
  digest-hashed e prev r l = ap (λ x. sha256 (x ++ content r)) l.prev_hash ∙ l.record_hash

  -- Two linked records with one digest: the same link and content, or a collision.
  link_agrees :
      (e e' : ℕ) (prev prev' : List Byte) (r s : Rec h)
      → length prev ≡ width
      → length prev' ≡ width
      → Links h e prev r
      → Links h e' prev' s
      → r.record_hash ≡ s.record_hash
      → ((prev ≡ prev') × (content r ≡ content s))
        ⊎ ((hashed r ≢ hashed s) × (sha256 (hashed r) ≡ sha256 (hashed s)))
  link_agrees e e' prev prev' r s w w' l l' same = elim (same_or_not (hashed r) (hashed s)) [
    | inr differ ↦ inr (differ, digest-hashed e prev r l ∙ same ∙ sym (digest-hashed e' prev' s l'))
    | inl equal ↦ inl (
        append_split prev prev' (content r) (content s) (w ∙ sym w') (
          ap (λ x. x ++ content r) (sym l.prev_hash)
          ∙ equal
          ∙ ap (λ x. x ++ content s) l'.prev_hash))
  ]

  chains_agree :
      (rs ss : List (Rec h)) (e n m m' : ℕ) (prev prev' : List Byte)
      → length rs ≡ length ss
      → length prev ≡ width
      → length prev' ≡ width
      → walk h e prev n rs ≡ verified m
      → walk h e prev' n ss ≡ verified m'
      → end_hash h prev rs ≡ end_hash h prev' ss
      → ((prev ≡ prev') × SameChain rs ss) ⊎ Collide rs ss
  chains_agree [] [] e n m m' prev prev' len w w' p q same = inl (same, tt)
  chains_agree [] (s ∷ ss) e n m m' prev prev' len w w' p q same = absurd (omega arith)
  chains_agree (r ∷ rs) [] e n m m' prev prev' len w w' p q same = absurd (omega arith)
  chains_agree (r ∷ rs) (s ∷ ss) e n m m' prev prev' len w w' p q same =
      let (l, p') = walk-Links h e prev n r rs m p in
      let (l', q') = walk-Links h e prev' n s ss m' q in
      elim (chains_agree rs ss (e + 1) (n + 1) m m' r.record_hash s.record_hash (omega arith)
        (digest-width e prev r l) (digest-width e prev' s l') p' q' same) [
          | inr later ↦ inr (inr later)
          | inl (hash, rest) ↦ elim (link_agrees e e prev prev' r s w w' l l' hash) [
            | inr now ↦ inr (inl now)
            | inl (linked, agree) ↦ inl (
              linked,
              (l.id ∙ sym l'.id, agree, l.prev_hash ∙ linked ∙ sym l'.prev_hash, hash, rest),
            )
          ]
        ]

  -- If two stores' chains for a tenant verify with the same count and end in the same digest, then
  -- record by record their ids, canonical contents, links and digests are the same, or at one place
  -- of the two chains different bytes have one SHA-256 digest.
  pub verify-SameChain :
      (t : String) (s s' : Store h) (n : ℕ)
      → verify h t s ≡ verified n
      → verify h t s' ≡ verified n
      → end_hash h (genesis h t) (read h t s) ≡ end_hash h (genesis h t) (read h t s')
      → SameChain (read h t s) (read h t s') ⊎ Collide (read h t s) (read h t s')
  unfolding verify
  verify-SameChain t s s' n v v' same =
      elim (chains_agree (read h t s) (read h t s') 1 0 n n (genesis h t) (genesis h t)
        (omega (
          arith,
          count-walk h 1 (genesis h t) 0 (read h t s) n v,
          count-walk h 1 (genesis h t) 0 (read h t s') n v',
        ))
        (length-sha256 _) (length-sha256 _) v v' same) [
          | inl (genesis_, agree) ↦ inl agree
          | inr collide ↦ inr collide
        ]

  walk-prefix :
      (rs ss : List (Rec h)) (e n m : ℕ) (prev : List Byte)
      → walk h e prev n (rs ++ ss) ≡ verified m
      → walk h e prev n rs ≡ verified (n + length rs)
  unfolding walk
  walk-prefix [] ss e n m prev p = ap verified (omega arith)
  walk-prefix (r ∷ rs) ss e n m prev p =
      let (l, q) = walk-Links h e prev n r (rs ++ ss) m p in
      Links-walk h e prev n r rs l
      ∙ walk-prefix rs ss (e + 1) (n + 1) m r.record_hash q
      ∙ ap verified (omega arith)

  -- Truncation is not detected: if a tenant's rows verify, so does any store that holds a prefix of
  -- them, with the smaller count.
  pub verify-truncated :
      (t : String) (s s' : Store h) (ss : List (Rec h)) (n : ℕ)
      → verify h t s ≡ verified n
      → read h t s ≡ read h t s' ++ ss
      → verify h t s' ≡ verified (length (read h t s'))
  unfolding verify
  verify-truncated t s s' ss n v e =
      walk-prefix (read h t s') ss 1 0 n (genesis h t) (rw e at v) ∙ ap verified (omega arith)
