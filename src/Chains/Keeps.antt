-- ===== src/Chains/Keeps.antt =====
-- `append` of Control-DB/zerotrace/ledger/chain.py keeps both chains of a tenant verifiable.
use mathlib.Core.Path.{subst}
use mathlib.Core.List.{append-nil, append_assoc}
use zero_trace.Prelude.{
  ℕ, ◌+◌, ◌≤◌, ◌<◌, String, ◌≡◌, refl, sym, ap, ◌∙◌, false, none, List, [], ◌∷◌, ◌++◌, arith,
  length, length-append, All, keep-append, All-keep, All-join, str_eq, str_eq_refl, eq_iff,
  Bool-cases, inl, inr, ◌⊎◌,
}
use zero_trace.Ledger.Hashing.{Hashing}
use zero_trace.Chains.Rows
use zero_trace.Chains.Rows.{chains, of_chain, of_tenant, last_of, other_chain, genesis}
use zero_trace.Chains.Roots.{Parents}
use zero_trace.Chains.Bindings.{Policies, Failure}
use zero_trace.Chains.Verify.{ChainResult, clean, broken, walk_hashes, walk_chain}
use zero_trace.Chains.Linked.{Links, end_hash, end_hash-append, walk-append, count-walk}
use zero_trace.Chains.Bound.{
  binding, Bound, walk_bindings-Bound, Bound-walk_bindings, binding-append,
}

pub ChainResult-cases :
    (r : ChainResult)
    → ((n : ℕ) × (r ≡ clean n)) ⊎ ((i : ℕ) × (id : ℕ) × (f : Failure) × (r ≡ broken i id f))
ChainResult-cases (clean n) = inl (n, refl)
ChainResult-cases (broken i id f) = inr (i, id, f, refl)

pub clean-broken : (n i id : ℕ) (f : Failure) → clean n ≡ broken i id f → ⊥
clean-broken n i id f e = cc

module _ (h : Hashing) (hex : List h.Byte → String) (row_json : String → ℕ → String → List h.Byte)
    (policies : Policies) (tenants : Parents) (t : String) where
  abbrev R : Type 0
  R = Rows.Row h hex

  abbrev IsBound : R → List R → Type 0
  IsBound r all = binding h hex row_json policies tenants r all ≡ none

  -- What `_walk_chain` tests of a chain: the hashes link and every row is bound.
  pub record ChainOk (all : List R) (c : String) : Type 0 where
    pub hashes :
        walk_hashes h hex row_json t 0 (genesis h hex t) (of_chain h hex c all)
        ≡ clean (length (of_chain h hex c all))
    pub bindings : Bound h hex row_json policies tenants all (of_chain h hex c all)

  pub walk_chain-ChainOk :
      (all : List R) (c : String) (n : ℕ)
      → walk_chain h hex row_json policies tenants t all (of_chain h hex c all) ≡ clean n
      → ChainOk all c
  unfolding walk_chain
  walk_chain-ChainOk all c n p =
      elim (ChainResult-cases
        (walk_hashes h hex row_json t 0 (genesis h hex t) (of_chain h hex c all))) [
          | inl (m, e) ↦ record {
            hashes =
                e
                ∙ ap clean (
                    omega (
                      arith,
                      count-walk h hex row_json t 0 (genesis h hex t) (of_chain h hex c all) m e,
                    ));
            bindings =
                walk_bindings-Bound h hex row_json policies tenants all 0 (of_chain h hex c all) n
                  (rw (walk_chain, e) at p);
          }
          | inr (i, id, f, e) ↦ absurd (clean-broken n i id f (sym (rw (walk_chain, e) at p)))
        ]

  pub ChainOk-walk_chain :
      (all : List R) (c : String)
      → ChainOk all c
      → walk_chain h hex row_json policies tenants t all (of_chain h hex c all)
        ≡ clean (length (of_chain h hex c all))
  unfolding walk_chain
  ChainOk-walk_chain all c ok =
      rw (walk_chain, ok.hashes)
        (Bound-walk_bindings h hex row_json policies tenants all 0 _ ok.bindings
          ∙ ap clean (omega arith))

  -- Two new rows at the end of one chain.
  module _ (all : List R) (c : String) (main anchor : R) where
    abbrev both : List R
    both = main ∷ anchor ∷ []

    same_chain :
        main.chain ≡ c
        → anchor.chain ≡ c
        → of_chain h hex c (all ++ both) ≡ of_chain h hex c all ++ both
    same_chain em ea =
        keep-append (λ (r : R). str_eq r.chain c) all both ∙ rw (em, ea, str_eq_refl c) refl

    other_chain_kept :
        (d : String)
        → str_eq c d ≡ false
        → main.chain ≡ c
        → anchor.chain ≡ c
        → of_chain h hex d (all ++ both) ≡ of_chain h hex d all
    other_chain_kept d differs em ea =
        keep-append (λ (r : R). str_eq r.chain d) all both ∙ rw (em, ea, differs) (append-nil _)

    -- New rows with larger ids leave the bindings of the older ones as they are.
    kept-Bound :
        (k : ℕ) (rows : List R)
        → k ≤ main.id
        → k ≤ anchor.id
        → All (λ (r : R). r.id < k) rows
        → Bound h hex row_json policies tenants all rows
        → Bound h hex row_json policies tenants (all ++ both) rows
    kept-Bound k [] km ka old b = tt
    kept-Bound k (r ∷ rows) km ka old b = (
      binding-append h hex row_json policies tenants r all both
            (omega (arith, old.0), (omega (arith, old.0), tt))
          ∙ b.0,
      kept-Bound k rows km ka old.1 b.1,
    )

    -- The two rows that `append` adds.
    pub record Added (k : ℕ) : Type 0 where
      pub fresh : All (λ (r : R). r.id < k) all
      pub main_id : main.id ≡ k
      pub anchor_id : anchor.id ≡ k + 1
      pub main_chain : main.chain ≡ c
      pub anchor_chain : anchor.chain ≡ c
      pub main_links :
          Links h hex row_json t
            (end_hash h hex row_json t (genesis h hex t) (of_chain h hex c all))
            main
      pub anchor_links : Links h hex row_json t main.record_hash anchor
      pub main_bound : IsBound main all
      pub anchor_bound : IsBound anchor (all ++ both)

    module _ (k : ℕ) (new : Added k) where
      abbrev old_rows : List R
      old_rows = of_chain h hex c all

      grown_hashes :
          ChainOk all c
          → walk_hashes h hex row_json t 0 (genesis h hex t) (old_rows ++ both)
            ≡ clean (length (old_rows ++ both))
      grown_hashes ok =
          ap (walk_hashes h hex row_json t 0 (genesis h hex t))
            (sym (append_assoc old_rows (main ∷ []) (anchor ∷ [])))
          ∙ walk-append h hex row_json t 0 (genesis h hex t) (old_rows ++ main ∷ []) anchor
              (length old_rows + 1)
              (walk-append h hex row_json t 0 (genesis h hex t) old_rows main (length old_rows)
                ok.hashes new.main_links)
              (rw (end_hash-append h hex row_json t (genesis h hex t) old_rows main)
                new.anchor_links)
          ∙ ap clean (omega (arith, length-append old_rows both))

      same_grows : ChainOk all c → ChainOk (all ++ both) c
      same_grows ok = record {
        hashes = rw (same_chain new.main_chain new.anchor_chain) (grown_hashes ok);
        bindings = rw (same_chain new.main_chain new.anchor_chain) (
            All-join (λ r. IsBound r (all ++ both)) old_rows both
              (kept-Bound k old_rows (omega (arith, new.main_id)) (omega (arith, new.anchor_id))
                (All-keep (λ (r : R). r.id < k) (λ (r : R). str_eq r.chain c) all new.fresh)
                ok.bindings)
              (
                binding-append h hex row_json policies tenants main all both
                      (omega arith, (omega (arith, new.main_id, new.anchor_id), tt))
                    ∙ new.main_bound,
                (new.anchor_bound, tt),
              ));
      }

      other_kept : (d : String) → str_eq c d ≡ false → ChainOk all d → ChainOk (all ++ both) d
      other_kept d differs ok = record {
        hashes = rw (other_chain_kept d differs new.main_chain new.anchor_chain) ok.hashes;
        bindings = rw (other_chain_kept d differs new.main_chain new.anchor_chain) (
            kept-Bound k (of_chain h hex d all) (omega (arith, new.main_id))
              (omega (arith, new.anchor_id))
              (All-keep (λ (r : R). r.id < k) (λ (r : R). str_eq r.chain d) all new.fresh)
              ok.bindings);
      }

      pub Added-ChainOk : (d : String) → ChainOk all d → ChainOk (all ++ both) d
      Added-ChainOk d ok = elim (Bool-cases (str_eq c d)) [
        | inl same ↦
            subst (ChainOk (all ++ both)) ((eq_iff c d).0 same)
              (same_grows (subst (ChainOk all) (sym ((eq_iff c d).0 same)) ok))
        | inr differs ↦ other_kept d differs ok
      ]
