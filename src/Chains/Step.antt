-- ===== src/Chains/Step.antt =====
-- One `append` of Control-DB/zerotrace/ledger/chain.py as two rows at the end of a chain.
use mathlib.Core.Path.{subst}
use mathlib.Core.List.{append-nil, append_assoc}
use zero_trace.Prelude.{
  ℕ, ◌+◌, ◌<◌, String, ◌≡◌, refl, sym, ap, ◌∙◌, true, false, Option, none, some, List, [], ◌∷◌,
  ◌++◌, arith, length, length-append, All, keep, keep-append, All-keep, contains, str_eq,
  str_eq_refl, eq_iff, Bool-cases, inl, inr, if◌then◌else◌,
}
use zero_trace.Ledger.Json.{Fields}
use zero_trace.Ledger.Hashing.{Hashing}
use zero_trace.Chains.Fields.{model_dump}
use zero_trace.Chains.Rows
use zero_trace.Chains.Rows.{
  chains, of_chain, of_tenant, last_of, last_row, other_chain, genesis, prev_hash_of, route,
  new_row, insert, anchor_payload, append, append_to, append_validated, append_cross_anchor,
  appended, record_invalid, Table,
}
use zero_trace.Chains.Roots.{Parents}
use zero_trace.Chains.Bindings.{Policies}
use zero_trace.Chains.Verify.{total_rows}
use zero_trace.Chains.Linked.{Links, prev_hash_of-last}
use zero_trace.Chains.Bound.{binding, other_chain-differs, chains-cases}
use zero_trace.Chains.Shape.{anchor_of, main_row, anchor_row}
use zero_trace.Chains.Anchored.{anchor-bound}
use zero_trace.Chains.Keeps.{Added}

module _ (h : Hashing) (hex : List h.Byte → String) (row_json : String → ℕ → String → List h.Byte)
    (policies : Policies) (tenants : Parents) (t : String) where
  abbrev R : Type 0
  R = Rows.Row h hex

  -- The tenant's rows after both inserts.
  rows_after :
      (rows : List R) (m a : R)
      → m.tenant_id ≡ t
      → a.tenant_id ≡ t
      → of_tenant h hex t ((rows ++ m ∷ []) ++ a ∷ []) ≡ of_tenant h hex t rows ++ m ∷ a ∷ []
  rows_after rows m a em ea =
      ap (of_tenant h hex t) (append_assoc rows (m ∷ []) (a ∷ []))
      ∙ keep-append (λ (r : R). str_eq r.tenant_id t) rows (m ∷ a ∷ [])
      ∙ rw (em, ea, str_eq_refl t) refl

  others_after :
      (rows : List R) (m : R) (c d : String)
      → m.tenant_id ≡ t
      → m.chain ≡ c
      → str_eq d c ≡ false
      → of_chain h hex d (of_tenant h hex t (rows ++ m ∷ []))
        ≡ of_chain h hex d (of_tenant h hex t rows)
  others_after rows m c d em ec differs =
      ap (of_chain h hex d)
        (keep-append (λ (r : R). str_eq r.tenant_id t) rows (m ∷ []) ∙ rw (em, str_eq_refl t) refl)
      ∙ keep-append (λ (r : R). str_eq r.chain d) (of_tenant h hex t rows) (m ∷ [])
      ∙ rw (ec, str_eq_differs) (append-nil _)
    where
      str_eq_differs : str_eq c d ≡ false
      str_eq_differs = ground (arith, eq_iff c d, eq_iff d c, differs)

  new_row-Links :
      (id : ℕ) (c event : String) (fields : Fields) (previous : Option R) (ts : String)
      → Links h hex row_json t
          (prev_hash_of h hex t previous)
          (new_row h hex id t c event fields previous ts)
  unfolding new_row
  new_row-Links id c event fields previous ts = record { prev_hash = refl; record_hash = refl }

  module _ (table : Table h hex) (fresh : All (λ (r : R). r.id < table.next_id) table.rows) where
    abbrev pub all : List R
    all = of_tenant h hex t table.rows

    module _ (c event : String) (fields : Fields) (ts anchor_ts : String)
        (known : contains c chains ≡ true) where
      abbrev pub main : R
      main = main_row h hex t c event fields ts table

      abbrev pub with_main : Table h hex
      with_main = insert h hex main table

      abbrev pub anchor : R
      anchor = anchor_row h hex t c main anchor_ts with_main

      abbrev pub grown : Table h hex
      grown = insert h hex anchor with_main

      pub grown_rows : of_tenant h hex t grown.rows ≡ all ++ main ∷ anchor ∷ []
      unfolding new_row
      grown_rows = rows_after table.rows main anchor refl refl

      pub others_same :
          of_chain h hex (other_chain c) (of_tenant h hex t with_main.rows)
          ≡ of_chain h hex (other_chain c) all
      unfolding new_row
      others_same =
          others_after table.rows main c (other_chain c) refl refl (other_chain-differs c known)

      anchor_payload_is :
          anchor.payload_json
          ≡ model_dump (
              anchor_payload h hex c
                (last_of h hex (of_chain h hex (other_chain c) all))
                (length (of_chain h hex (other_chain c) all)))
      unfolding new_row
      anchor_payload_is =
          ap (λ os. model_dump (anchor_payload h hex c (last_of h hex os) (length os))) others_same

      old_fresh : All (λ (r : R). r.id < table.next_id) all
      old_fresh =
          All-keep (λ (r : R). r.id < table.next_id) (λ (r : R). str_eq r.tenant_id t) table.rows
            fresh

      pub grown-Added :
          binding h hex row_json policies tenants main all ≡ none
          → Added h hex row_json policies tenants t all c main anchor table.next_id
      unfolding new_row
      grown-Added b = record {
        fresh = old_fresh;
        main_id = refl;
        anchor_id = refl;
        main_chain = refl;
        anchor_chain = refl;
        main_links =
            subst (λ x. Links h hex row_json t x main)
              (prev_hash_of-last h hex row_json t (of_chain h hex c all))
              (new_row-Links table.next_id c event fields (last_row h hex t c table) ts);
        anchor_links =
            new_row-Links (table.next_id + 1) c "chain.cross_anchor"
              (model_dump (anchor_of h hex t c with_main)) (some main) anchor_ts;
        main_bound = b;
        anchor_bound =
            anchor-bound h hex row_json all c main anchor known refl refl policies tenants
              table.next_id old_fresh (omega arith) refl anchor_payload_is;
      }

  count_after :
      (rows : List R) (m a : R) (c d : String)
      → m.chain ≡ c
      → a.chain ≡ c
      → length (of_chain h hex d (rows ++ m ∷ a ∷ []))
        ≡ length (of_chain h hex d rows) + (if str_eq c d then 2 else 0)
  count_after rows m a c d em ea = elim (Bool-cases (str_eq c d)) [
    | inl same ↦
        rw
          (
            keep-append (λ (r : R). str_eq r.chain d) rows (m ∷ a ∷ []),
            length-append (of_chain h hex d rows) (keep (λ (r : R). str_eq r.chain d) (m ∷ a ∷ [])),
            em,
            ea,
            same,
          )
          refl
    | inr other ↦
        rw
          (
            keep-append (λ (r : R). str_eq r.chain d) rows (m ∷ a ∷ []),
            length-append (of_chain h hex d rows) (keep (λ (r : R). str_eq r.chain d) (m ∷ a ∷ [])),
            em,
            ea,
            other,
          )
          refl
  ]

  two_rows_in :
      (c : String)
      → contains c chains ≡ true
      → (if str_eq c "ctl" then 2 else 0) + (if str_eq c "dp" then 2 else 0) ≡ 2
  two_rows_in c known = elim (chains-cases c known) [
    | inl e ↦
        subst (λ x. (if str_eq x "ctl" then 2 else 0) + (if str_eq x "dp" then 2 else 0) ≡ 2)
          (sym e) refl
    | inr e ↦
        subst (λ x. (if str_eq x "ctl" then 2 else 0) + (if str_eq x "dp" then 2 else 0) ≡ 2)
          (sym e) refl
  ]

  pub total_after :
      (rows : List R) (m a : R) (c : String)
      → m.chain ≡ c
      → a.chain ≡ c
      → contains c chains ≡ true
      → total_rows h hex row_json (rows ++ m ∷ a ∷ []) chains
        ≡ total_rows h hex row_json rows chains + 2
  unfolding total_rows
  total_after rows m a c em ea known = omega (
    arith,
    count_after rows m a c "ctl" em ea,
    count_after rows m a c "dp" em ea,
    two_rows_in c known,
  )
