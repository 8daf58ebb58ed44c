-- ===== src/Chains/Promise.antt =====
-- What `append` and `verify` of Control-DB/zerotrace/ledger/chain.py promise of each other.
use mathlib.Core.Path.{subst}
use zero_trace.Prelude.{
  ℕ, ◌+◌, ◌<◌, String, ◌≡◌, refl, sym, ap, ◌∙◌, true, false, Option, none, some, List, [], ◌∷◌,
  ◌++◌, arith, All, All-join, All-map, contains, str_eq, inl, inr,
}
use zero_trace.Ledger.Json.{Fields}
use zero_trace.Ledger.Hashing.{Hashing}
use zero_trace.Chains.Records.{Payload, check_hash, validate}
use zero_trace.Chains.Fields.{model_dump}
use zero_trace.Chains.Rows
use zero_trace.Chains.Rows.{
  chains, of_chain, of_tenant, last_of, last_row, other_chain, genesis, prev_hash_of, route,
  new_row, insert, anchor_payload, append, append_to, append_validated, append_cross_anchor,
  appended, record_invalid, Table,
}
use zero_trace.Chains.Roots.{Parents}
use zero_trace.Chains.Bindings.{Policies}
use zero_trace.Chains.Verify.{total_rows, verify, verified}
use zero_trace.Chains.Linked.{last_of-digest}
use zero_trace.Chains.Bound.{binding, validate-anchor, chains-cases}
use zero_trace.Chains.Shape.{main_row, anchor_row, append-Shape}
use zero_trace.Chains.Keeps.{ChainOk, Added-ChainOk}
use zero_trace.Chains.Verdict.{verify-ChainOk, ChainOk-verify}
use zero_trace.Chains.Step.{grown, grown_rows, grown-Added, anchor, others_same, total_after}

module _ (h : Hashing) (hex : List h.Byte → String) (row_json : String → ℕ → String → List h.Byte)
    (policies : Policies) (tenants : Parents) (t : String) where
  abbrev R : Type 0
  R = Rows.Row h hex

  -- Every id is one that the database has given out.
  abbrev pub Fresh : Table h hex → Type 0
  Fresh table = All (λ (r : R). r.id < table.next_id) table.rows

  module _ (table : Table h hex) (fresh : Fresh table) (c event : String) (fields : Fields)
      (ts anchor_ts : String) (known : contains c chains ≡ true) where
    abbrev row : R
    row = main_row h hex t c event fields ts table

    abbrev after : Table h hex
    after = grown h hex row_json policies tenants t table fresh c event fields ts anchor_ts known

    abbrev link : R
    link = anchor h hex row_json policies tenants t table fresh c event fields ts anchor_ts known

    grown_verifies :
        (n : ℕ)
        → binding h hex row_json policies tenants row (of_tenant h hex t table.rows) ≡ none
        → verify h hex row_json policies tenants t none table ≡ verified n
        → verify h hex row_json policies tenants t none after ≡ verified (n + 2)
    unfolding new_row
    grown_verifies n b v =
        let (ok, count) = verify-ChainOk h hex row_json policies tenants t table n v in
        let rows =
          grown_rows h hex row_json policies tenants t table fresh c event fields ts anchor_ts
            known in
        let new =
          grown-Added h hex row_json policies tenants t table fresh c event fields ts anchor_ts
            known b in
        let keeps =
          Added-ChainOk h hex row_json policies tenants t (of_tenant h hex t table.rows) c row link
            table.next_id new in
        ChainOk-verify h hex row_json policies tenants t after (
          subst (λ rs. All (ChainOk h hex row_json policies tenants t rs) chains) (sym rows)
            (All-map keeps chains ok))
        ∙ ap verified (
            ap (λ rs. total_rows h hex row_json rs chains) rows
            ∙ total_after h hex row_json policies tenants t (of_tenant h hex t table.rows) row link
                c refl refl known
            ∙ ap (λ m. m + 2) (sym count))

    grown-Fresh : Fresh after
    unfolding new_row
    grown-Fresh =
        All-join (λ (r : R). r.id < after.next_id) (table.rows ++ row ∷ []) (link ∷ [])
          (All-join (λ (r : R). r.id < after.next_id) table.rows (row ∷ [])
            (All-map (λ r lt. omega arith) table.rows fresh) (omega arith, tt))
          (omega arith, tt)

  -- A successful append to a table in which both chains of the tenant verify, with n rows, leaves
  -- them verifiable with n + 2: the record and the cross-anchor after it. The ids of the table are
  -- below the next id, before and after, and the record itself must be bound to its policy rows.
  pub verify-appended :
      (event : String) (p : Payload) (name : Option String) (ts anchor_ts : String)
      (table table' : Table h hex) (row : R) (n : ℕ)
      → Fresh table
      → verify h hex row_json policies tenants t none table ≡ verified n
      → append h hex t event p name ts anchor_ts table ≡ appended row table'
      → binding h hex row_json policies tenants row (of_tenant h hex t table.rows) ≡ none
      → (verify h hex row_json policies tenants t none table' ≡ verified (n + 2)) × Fresh table'
  verify-appended event p name ts anchor_ts table table' row n fresh v a b =
      let s = append-Shape h hex t event p name ts anchor_ts table table' row a in
      let fields = model_dump s.validated in
      let same =
        s.table_is
        ∙ ap
            (λ r.
              insert h hex (anchor_row h hex t s.c r anchor_ts (insert h hex r table))
                (insert h hex r table))
            s.row_is in
      subst (λ T. (verify h hex row_json policies tenants t none T ≡ verified (n + 2)) × Fresh T)
        (sym same)
        (
          grown_verifies table fresh s.c event fields ts anchor_ts s.known n
              (subst
                (λ r.
                  binding h hex row_json policies tenants r (of_tenant h hex t table.rows) ≡ none)
                s.row_is b)
              v,
          grown-Fresh table fresh s.c event fields ts anchor_ts s.known,
        )

  chain_is_ok :
      (c : String) (all : List R)
      → contains c chains ≡ true
      → All (ChainOk h hex row_json policies tenants t all) chains
      → ChainOk h hex row_json policies tenants t all (other_chain c)
  chain_is_ok c all known ok = elim (chains-cases c known) [
    | inl e ↦
        subst (λ x. ChainOk h hex row_json policies tenants t all (other_chain x)) (sym e) ok.1.0
    | inr e ↦
        subst (λ x. ChainOk h hex row_json policies tenants t all (other_chain x)) (sym e) ok.0
  ]

  -- On a table of fresh ids in which both chains of the tenant verify, a valid record for a known chain,
  -- not itself a cross-anchor, is always appended: the
  -- cross-anchor that the ledger writes itself is never refused. `hex` spells a digest as 64 characters.
  pub append-accepts :
      ((x : List h.Byte) → check_hash (hex (h.sha256 x)) ≡ true)
      → (event : String) (p v : Payload) (name : Option String) (c ts anchor_ts : String)
        (table : Table h hex) (n : ℕ)
      → Fresh table
      → verify h hex row_json policies tenants t none table ≡ verified n
      → str_eq event "chain.cross_anchor" ≡ false
      → route name event ≡ some c
      → contains c chains ≡ true
      → validate event p ≡ some v
      → (row : R) × (table' : Table h hex) × (append h hex t event p name ts anchor_ts table
          ≡ appended row table')
  unfolding append append_to append_validated append_cross_anchor
  append-accepts hashed event p v name c ts anchor_ts table n fresh ok-table caller routed known
        valid =
      let fields = model_dump v in
      let ok = (verify-ChainOk h hex row_json policies tenants t table n ok-table).0 in
      let others =
        others_same h hex row_json policies tenants t table fresh c event fields ts anchor_ts
          known in
      let ok_other = chain_is_ok c (of_tenant h hex t table.rows) known ok in
      let m = main_row h hex t c event fields ts table in
      let anchor_valid =
        validate-anchor h hex row_json c
          (of_chain h hex (other_chain c) (of_tenant h hex t (insert h hex m table).rows)) known
          (λ r e.
            let (x, d) =
              last_of-digest h hex row_json t 0 (genesis h hex t)
                (of_chain h hex (other_chain c) (of_tenant h hex t table.rows)) _ r ok_other.hashes
                (ap (last_of h hex) (sym others) ∙ e) in
            subst (λ b. check_hash (hex b) ≡ true) (sym d) (hashed x)) in
      (
        m,
        insert h hex (anchor_row h hex t c m anchor_ts (insert h hex m table))
            (insert h hex m table),
        rw
            (
              append, caller, routed, append_to, known, valid, append_validated,
              append_cross_anchor, anchor_valid,
            )
            refl,
      )
