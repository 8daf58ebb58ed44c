-- ===== src/Chains/Verdict.antt =====
-- When `verify` of Control-DB/zerotrace/ledger/chain.py succeeds.
use zero_trace.Prelude.{ℕ, String, ◌≡◌, refl, none, List, [], ◌∷◌, arith, All, inl, inr, ◌⊎◌}
use zero_trace.Ledger.Hashing.{Hashing}
use zero_trace.Chains.Rows
use zero_trace.Chains.Rows.{
  chains, of_chain, of_tenant, last_of, last_row, other_chain, genesis, prev_hash_of, route,
  new_row, insert, anchor_payload, append, append_to, append_validated, append_cross_anchor,
  appended, record_invalid, Table,
}
use zero_trace.Chains.Roots.{Parents}
use zero_trace.Chains.Bindings.{Policies, Failure}
use zero_trace.Chains.Verify.{
  walk_chain, first_failure, total_rows, verify, verified, First, no_failure, failure, earlier,
}
use zero_trace.Chains.Keeps.{ChainOk, walk_chain-ChainOk, ChainOk-walk_chain, ChainResult-cases}

earlier-failure :
    (id : ℕ) (c : String) (f : Failure) (r : First) → earlier id c f r ≡ no_failure → ⊥
earlier-failure id c f no_failure e = cc
earlier-failure id c f (failure i d g) e = ground arith

module _ (h : Hashing) (hex : List h.Byte → String) (row_json : String → ℕ → String → List h.Byte)
    (policies : Policies) (tenants : Parents) (t : String) where
  abbrev R : Type 0
  R = Rows.Row h hex

  abbrev IsOk : List R → String → Type 0
  IsOk = ChainOk h hex row_json policies tenants t

  first_failure-ChainOk :
      (all : List R) (cs : List String)
      → first_failure h hex row_json policies tenants t all cs ≡ no_failure
      → All (IsOk all) cs
  unfolding first_failure
  first_failure-ChainOk all [] p = tt
  first_failure-ChainOk all (c ∷ cs) p =
      elim (ChainResult-cases
        (walk_chain h hex row_json policies tenants t all (of_chain h hex c all))) [
          | inl (n, e) ↦ (
            walk_chain-ChainOk h hex row_json policies tenants t all c n e,
            first_failure-ChainOk all cs (rw (first_failure, e) at p),
          )
          | inr (i, id, f, e) ↦ absurd (earlier-failure id c f _ (rw (first_failure, e) at p))
        ]

  ChainOk-first_failure :
      (all : List R) (cs : List String)
      → All (IsOk all) cs
      → first_failure h hex row_json policies tenants t all cs ≡ no_failure
  unfolding first_failure
  ChainOk-first_failure all [] ok = refl
  ChainOk-first_failure all (c ∷ cs) ok =
      rw (first_failure, ChainOk-walk_chain h hex row_json policies tenants t all c ok.0)
        (ChainOk-first_failure all cs ok.1)

  First-cases :
      (f : First)
      → (f ≡ no_failure) ⊎ ((id : ℕ) × (c : String) × (d : Failure) × (f ≡ failure id c d))
  First-cases no_failure = inl refl
  First-cases (failure id c d) = inr (id, c, d, refl)

  -- `verify` of both chains succeeds exactly when both are in order, and counts their rows.
  pub verify-ChainOk :
      (table : Table h hex) (n : ℕ)
      → verify h hex row_json policies tenants t none table ≡ verified n
      → All (IsOk (of_tenant h hex t table.rows)) chains
        × (n ≡ total_rows h hex row_json (of_tenant h hex t table.rows) chains)
  unfolding verify
  verify-ChainOk table n p =
      elim (First-cases
        (first_failure h hex row_json policies tenants t (of_tenant h hex t table.rows) chains)) [
          | inl e ↦ (
            first_failure-ChainOk (of_tenant h hex t table.rows) chains e,
            ground (arith, (rw (verify, e) at p)),
          )
          | inr (id, c, d, e) ↦ absurd (ground (arith, (rw (verify, e) at p)))
        ]

  pub ChainOk-verify :
      (table : Table h hex)
      → All (IsOk (of_tenant h hex t table.rows)) chains
      → verify h hex row_json policies tenants t none table
        ≡ verified (total_rows h hex row_json (of_tenant h hex t table.rows) chains)
  unfolding verify
  ChainOk-verify table ok =
      rw (verify, ChainOk-first_failure (of_tenant h hex t table.rows) chains ok) refl
