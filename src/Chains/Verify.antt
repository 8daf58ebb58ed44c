-- ===== src/Chains/Verify.antt =====
-- `_walk_chain` and `verify` of Control-DB/zerotrace/ledger/chain.py.
use zero_trace.Prelude.{
  ℕ, ◌+◌, String, not, Option, none, some, List, [], ◌∷◌, ltb, length, if◌then◌else◌,
}
use zero_trace.Ledger.Hashing.{Hashing}
use zero_trace.Chains.Rows
use zero_trace.Chains.Rows.{chains, genesis, record_digest, of_tenant, of_chain}
use zero_trace.Chains.Roots.{Parents}
use zero_trace.Chains.Bindings.{
  Failure, prev_mismatch, content_mismatch, Policies, Row, binding_failure,
}

-- The result of one chain: how many rows were checked; or the index and the id of the row that
-- failed.
pub data ChainResult : Type 0 where
  clean : ℕ → ChainResult
  broken : ℕ → ℕ → Failure → ChainResult

-- A failed VerifyResult has the id, the chain and the detail of the first failure.
pub data VerifyResult : Type 0 where
  verified : ℕ → VerifyResult
  diverged : ℕ → ℕ → String → Failure → VerifyResult

-- What `min` by `broken_at` keeps: of equal ids, the earlier.
pub data First : Type 0 where
  no_failure : First
  failure : ℕ → String → Failure → First

abbrev pub earlier : ℕ → String → Failure → First → First
earlier id c f no_failure = failure id c f
earlier id c f (failure id' c' f') = if ltb id' id then failure id' c' f' else failure id c f

module _ (h : Hashing) (hex : List h.Byte → String)
    (row_json : String → ℕ → String → List h.Byte) where
  open h use {Byte, bytes_eq}

  abbrev R : Type 0
  R = Row h hex row_json

  -- The first loop of `_walk_chain`.
  unfoldable pub walk_hashes : String → ℕ → List Byte → List R → ChainResult
  walk_hashes t index prev [] = clean index
  walk_hashes t index prev (r ∷ rs) =
      let recomputed = record_digest h hex prev t r.event_type r.payload_json r.ts in
      let rest = walk_hashes t (index + 1) recomputed rs in
      if not (bytes_eq r.prev_hash prev)
      then broken index r.id prev_mismatch
      else if not (bytes_eq recomputed r.record_hash)
      then broken index r.id content_mismatch
      else rest

  -- The second loop.
  unfoldable pub walk_bindings : Policies → Parents → List R → ℕ → List R → ChainResult
  walk_bindings policies tenants all index [] = clean index
  walk_bindings policies tenants all index (r ∷ rs) =
      elim (binding_failure h hex row_json policies tenants r all) [
        | some detail ↦ broken index r.id detail
        | none ↦ walk_bindings policies tenants all (index + 1) rs
      ]

  unfoldable pub walk_chain : Policies → Parents → String → List R → List R → ChainResult
  unfolding walk_hashes walk_bindings
  walk_chain policies tenants t all rows = elim (walk_hashes t 0 (genesis h hex t) rows) [
    | broken index id detail ↦ broken index id detail
    | clean n ↦ walk_bindings policies tenants all 0 rows
  ]

  -- `min(failures, key=broken_at)`
  unfoldable pub first_failure : Policies → Parents → String → List R → List String → First
  unfolding walk_chain
  first_failure policies tenants t all [] = no_failure
  first_failure policies tenants t all (c ∷ cs) =
      let rest = first_failure policies tenants t all cs in
      elim (walk_chain policies tenants t all (of_chain h hex c all)) [
        | clean n ↦ rest
        | broken index id detail ↦ earlier id c detail rest
      ]

  -- `sum(len(by_chain[name]) for name in chains)`
  unfoldable pub total_rows : List R → List String → ℕ
  total_rows all [] = 0
  total_rows all (c ∷ cs) = length (of_chain h hex c all) + total_rows all cs

  abbrev pub selected : Option String → List String
  selected none = chains
  selected (some c) = c ∷ []

  unfoldable pub verify :
      Policies → Parents → String → Option String → Rows.Table h hex → VerifyResult
  unfolding first_failure total_rows
  verify policies tenants t chain_name table =
      let all = of_tenant h hex t table.rows in
      let names = selected chain_name in
      elim (first_failure policies tenants t all names) [
        | no_failure ↦ verified (total_rows all names)
        | failure id c detail ↦ diverged (total_rows all names) id c detail
      ]
