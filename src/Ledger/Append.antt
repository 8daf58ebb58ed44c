-- ===== src/Ledger/Append.antt =====
-- `append` of gateway/ledger/chain.py keeps every chain verifiable.
use mathlib.Core.Path.{subst}
use zero_trace.Prelude.{
  ℕ, ◌+◌, String, ◌≡◌, refl, sym, ap, ◌∙◌, false, Option, none, some, List, [], ◌∷◌, ◌++◌, arith,
  str_eq, eq_iff, length, if◌then◌else◌,
}
use zero_trace.Ledger.Json.{Fields}
use zero_trace.Ledger.Hashing.{Hashing}
use zero_trace.Ledger.Chain
use zero_trace.Ledger.Chain.{
  Store, read, put, last_row, head_of, head, genesis, hash_for, build, append, appended, unsafe,
  walk, verify, Verified, verified,
}

module _ (h : Hashing) where
  open h use {Byte, bytes_eq, bytes_eq_iff}

  abbrev pub Rec : Type 0
  Rec = Chain.Record h

  abbrev pub digest_of : List Byte → Rec → List Byte
  digest_of prev r = hash_for h r.tenant_id r.event_type r.payload r.ts prev

  -- Where a chain that starts at an id and a hash ends.
  abbrev pub end_id : ℕ → List Rec → ℕ
  end_id e [] = e
  end_id e (r ∷ rs) = end_id (r.id + 1) rs

  abbrev pub end_hash : List Byte → List Rec → List Byte
  end_hash prev [] = prev
  end_hash prev (r ∷ rs) = end_hash r.record_hash rs

  -- A record that passes the tests of `verify` at its place.
  pub record Links (e : ℕ) (prev : List Byte) (r : Rec) : Type 0 where
    pub id : r.id ≡ e
    pub prev_hash : r.prev_hash ≡ prev
    pub record_hash : digest_of prev r ≡ r.record_hash

  pub walk-Links :
      (e : ℕ) (prev : List Byte) (n : ℕ) (r : Rec) (rs : List Rec) (m : ℕ)
      → walk h e prev n (r ∷ rs) ≡ verified m
      → Links e prev r × (walk h (e + 1) r.record_hash (n + 1) rs ≡ verified m)
  unfolding walk
  walk-Links e prev n r rs m p =
      ground (arith, bytes_eq_iff r.prev_hash prev, bytes_eq_iff (digest_of prev r) r.record_hash)

  pub Links-walk :
      (e : ℕ) (prev : List Byte) (n : ℕ) (r : Rec) (rs : List Rec)
      → Links e prev r
      → walk h e prev n (r ∷ rs) ≡ walk h (e + 1) r.record_hash (n + 1) rs
  unfolding walk
  Links-walk e prev n r rs l =
      ground (arith, bytes_eq_iff r.prev_hash prev, bytes_eq_iff (digest_of prev r) r.record_hash)

  -- The chain as a whole: what `verify` counts, and where it ends.
  pub count-walk :
      (e : ℕ) (prev : List Byte) (n : ℕ) (rs : List Rec) (m : ℕ)
      → walk h e prev n rs ≡ verified m
      → m ≡ n + length rs
  unfolding walk
  count-walk e prev n [] m p = ground arith
  count-walk e prev n (r ∷ rs) m p =
      let (l, q) = walk-Links e prev n r rs m p in
      omega (arith, count-walk (e + 1) r.record_hash (n + 1) rs m q)

  pub end_id-walk :
      (e : ℕ) (prev : List Byte) (n : ℕ) (rs : List Rec) (m : ℕ)
      → walk h e prev n rs ≡ verified m
      → end_id e rs + n ≡ e + m
  unfolding walk
  end_id-walk e prev n [] m p = ground arith
  end_id-walk e prev n (r ∷ rs) m p =
      let (l, q) = walk-Links e prev n r rs m p in
      rw l.id (omega (arith, end_id-walk (e + 1) r.record_hash (n + 1) rs m q))

  walk-nil :
      (e : ℕ) (x : Rec) (prev : List Byte) (n m : ℕ)
      → walk h e prev n [] ≡ verified m
      → walk h (e + 1) x.record_hash (n + 1) [] ≡ verified (m + 1)
  unfolding walk
  walk-nil e x prev n m p = ground arith

  pub walk-append :
      (e : ℕ) (prev : List Byte) (n : ℕ) (rs : List Rec) (x : Rec) (m : ℕ)
      → walk h e prev n rs ≡ verified m
      → Links (end_id e rs) (end_hash prev rs) x
      → walk h e prev n (rs ++ x ∷ []) ≡ verified (m + 1)
  walk-append e prev n [] x m p l = Links-walk e prev n x [] l ∙ walk-nil e x prev n m p
  walk-append e prev n (r ∷ rs) x m p l =
      let (k, q) = walk-Links e prev n r rs m p in
      Links-walk e prev n r (rs ++ x ∷ []) k
      ∙ walk-append (e + 1) r.record_hash (n + 1) rs x m q (rw (← k.id) l)

  last-row :
      (r : Rec) (rs : List Rec)
      → (l : Rec) × (last_row h (r ∷ rs) ≡ some l)
        × (end_id (r.id + 1) rs ≡ l.id + 1)
        × (end_hash r.record_hash rs ≡ l.record_hash)
  last-row r [] = (r, refl, refl, refl)
  last-row r (s ∷ rs) = last-row s rs

  -- A record that is built on the head of a tenant's rows links to their end.
  module _ (t event ts : String) (payload : Fields) where
    abbrev built : Option (ℕ × List Byte) → Rec
    built = build h t event payload ts

    Links-first : Links 1 (genesis h t) (built none)
    unfolding build
    Links-first = record { id = refl; prev_hash = refl; record_hash = refl }

    Links-next : (id : ℕ) (prev : List Byte) → Links (id + 1) prev (built (some (id, prev)))
    unfolding build
    Links-next id prev = record { id = refl; prev_hash = refl; record_hash = refl }

    tenant-built : (hd : Option (ℕ × List Byte)) → (built hd).tenant_id ≡ t
    unfolding build
    tenant-built none = refl
    tenant-built (some x) = refl

    built-Links :
        (rs : List Rec)
        → Links (end_id 1 rs) (end_hash (genesis h t) rs) (built (head_of h (last_row h rs)))
    built-Links [] = Links-first
    built-Links (r ∷ rs) =
        let (l, found, at_id, at_hash) = last-row r rs in
        rw (at_id, at_hash)
          (subst (λ o. Links (l.id + 1) l.record_hash (built (head_of h o))) (sym found)
            (Links-next l.id l.record_hash))

  pub read-put :
      (t : String) (r : Rec) (s : Store h)
      → read h t (put h r s) ≡ (if str_eq r.tenant_id t then read h t s ++ r ∷ [] else read h t s)
  unfolding read put
  read-put t r [] = ground arith
  read-put t r ((u, rows) ∷ s) =
      ground (arith, eq_iff u t, eq_iff u r.tenant_id, eq_iff r.tenant_id t, read-put t r s)

  append-appended :
      (lower : String → String) (t event ts : String) (payload : Fields) (s s' : Store h) (r : Rec)
      → append h lower t event payload ts s ≡ appended r s'
      → (r ≡ build h t event payload ts (head h t s)) × (s' ≡ put h r s)
  unfolding append
  append-appended lower t event ts payload s s' r a = ground arith

  -- A verified chain of n records has n + 1 after a successful append, for any event and payload,
  -- the new one with id n + 1, and no other tenant's rows change.
  pub verify-append :
      (lower : String → String) (t event ts : String) (payload : Fields) (s s' : Store h) (r : Rec)
      (n : ℕ)
      → append h lower t event payload ts s ≡ appended r s'
      → verify h t s ≡ verified n
      → (verify h t s' ≡ verified (n + 1))
        × (r.id ≡ n + 1)
        × ((u : String) → str_eq t u ≡ false → read h u s' ≡ read h u s)
  unfolding verify
  verify-append lower t event ts payload s s' r n a v =
      let (er, es) = append-appended lower t event ts payload s s' r a in
      let links =
        subst (Links (end_id 1 (read h t s)) (end_hash (genesis h t) (read h t s))) (sym er)
          (built-Links t event ts payload (read h t s)) in
      let tenant : r.tenant_id ≡ t =
        ap (λ (x : Rec). x.tenant_id) er ∙ tenant-built t event ts payload (head h t s) in
      let rows : read h t s' ≡ read h t s ++ r ∷ [] =
        ground (arith, read-put t r s, eq_iff r.tenant_id t, es, tenant) in
      (
        rw rows (walk-append 1 (genesis h t) 0 (read h t s) r n v links),
        omega (arith, links.id, end_id-walk 1 (genesis h t) 0 (read h t s) n v),
        λ u ne. ground (arith, read-put u r s, es, tenant),
      )
