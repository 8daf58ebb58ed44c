-- ===== src/Chains/Shape.antt =====
-- The rows that `append` of Control-DB/zerotrace/ledger/chain.py adds, when it succeeds.
use zero_trace.Prelude.{
  String, ◌≡◌, sym, ap, ◌∙◌, true, Option, some, List, arith, length, contains, str_eq,
  Option-cases, Bool-cases, inl, inr,
}
use zero_trace.Ledger.Json.{Fields}
use zero_trace.Ledger.Hashing.{Hashing}
use zero_trace.Chains.Records.{Payload, validate, check_payload}
use zero_trace.Chains.Fields.{model_dump}
use zero_trace.Chains.Rows
use zero_trace.Chains.Rows.{
  Table, chains, of_chain, of_tenant, last_row, other_chain, route, new_row, insert, anchor_payload,
  append, append_to, append_validated, append_cross_anchor, Appended, appended, record_invalid,
}

module _ (h : Hashing) (hex : List h.Byte → String) (t : String) where
  abbrev R : Type 0
  R = Rows.Row h hex

  -- The payload of the anchor on a chain.
  abbrev pub anchor_of : String → Table h hex → Payload
  anchor_of c table =
      anchor_payload h hex c (last_row h hex t (other_chain c) table)
        (length (of_chain h hex (other_chain c) (of_tenant h hex t table.rows)))

  abbrev pub main_row : String → String → Fields → String → Table h hex → R
  main_row c event fields ts table =
      new_row h hex table.next_id t c event fields (last_row h hex t c table) ts

  abbrev pub anchor_row : String → R → String → Table h hex → R
  anchor_row c row ts table =
      new_row h hex table.next_id t c "chain.cross_anchor" (model_dump (anchor_of c table))
        (some row) ts

  invalid-appended : (r : R) (table : Table h hex) → record_invalid ≡ appended r table → ⊥
  invalid-appended r table e = cc

  appended_injective :
      (r s : R) (table table' : Table h hex)
      → appended r table ≡ appended s table'
      → (s ≡ r) × (table' ≡ table)
  appended_injective r s table table' e = (cc, cc)

  anchor_unchanged :
      (c : String) (table : Table h hex) (v : Payload)
      → validate "chain.cross_anchor" (anchor_of c table) ≡ some v
      → v ≡ anchor_of c table
  unfolding validate check_payload anchor_payload
  anchor_unchanged c table v e = ground arith

  anchored :
      (c : String) (row r : R) (ts : String) (table table' : Table h hex)
      → append_cross_anchor h hex t c row ts table ≡ appended r table'
      → (r ≡ row) × (table' ≡ insert h hex (anchor_row c row ts table) table)
  unfolding append_cross_anchor
  anchored c row r ts table table' p =
      elim (Option-cases (validate "chain.cross_anchor" (anchor_of c table))) [
        | inl e ↦ absurd (invalid-appended r table' (rw (append_cross_anchor, e) at p))
        | inr (v, e) ↦
            let (same_row, same_table) =
              appended_injective _ _ _ _ (rw (append_cross_anchor, e) at p) in
            (
              same_row,
              same_table
                  ∙ ap
                      (λ w.
                        insert h hex
                          (new_row h hex table.next_id t c "chain.cross_anchor" (model_dump w)
                            (some row) ts)
                          table)
                      (anchor_unchanged c table v e),
            )
      ]

  pub record Shape (event : String) (p : Payload) (name : Option String) (ts anchor_ts : String)
      (table table' : Table h hex) (row : R) : Type 0 where
    pub c : String
    pub validated : Payload
    pub known : contains c chains ≡ true
    pub routed : route name event ≡ some c
    pub valid : validate event p ≡ some validated
    pub row_is : row ≡ main_row c event (model_dump validated) ts table
    pub table_is :
        table'
        ≡ insert h hex
            (anchor_row c row anchor_ts (insert h hex row table))
            (insert h hex row table)

  module _ (event : String) (p : Payload) (name : Option String) (ts anchor_ts : String)
      (table table' : Table h hex) (row : R) where
    append_to-Shape :
        (c : String)
        → route name event ≡ some c
        → append_to h hex t c event p ts anchor_ts table ≡ appended row table'
        → Shape event p name ts anchor_ts table table' row
    unfolding append_to append_validated
    append_to-Shape c routed e = elim (Bool-cases (contains c chains)) [
      | inr other ↦ absurd (invalid-appended row table' (rw (append_to, other) at e))
      | inl known ↦ elim (Option-cases (validate event p)) [
        | inl invalid ↦ absurd (invalid-appended row table' (rw (append_to, known, invalid) at e))
        | inr (v, valid) ↦
            let (same_row, same_table) =
              anchored c (main_row c event (model_dump v) ts table) row anchor_ts
                (insert h hex (main_row c event (model_dump v) ts table) table) table'
                (rw (append_to, known, valid) at e) in
            record {
              c = c;
              validated = v;
              known = known;
              routed = routed;
              valid = valid;
              row_is = same_row;
              table_is =
                  same_table
                  ∙ ap
                      (λ r.
                        insert h hex (anchor_row c r anchor_ts (insert h hex r table))
                          (insert h hex r table))
                      (sym same_row);
            }
      ]
    ]

    pub append-Shape :
        append h hex t event p name ts anchor_ts table ≡ appended row table'
        → Shape event p name ts anchor_ts table table' row
    unfolding append
    append-Shape e = elim (Bool-cases (str_eq event "chain.cross_anchor")) [
      | inl own ↦ absurd (invalid-appended row table' (rw (append, own) at e))
      | inr other ↦ elim (Option-cases (route name event)) [
        | inl lost ↦ absurd (invalid-appended row table' (rw (append, other, lost) at e))
        | inr (c, routed) ↦ append_to-Shape c routed (rw (append, other, routed) at e)
      ]
    ]
