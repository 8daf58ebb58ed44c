-- ===== src/Chains/Rows.antt =====
-- `append` of Control-DB/zerotrace/ledger/chain.py, over the rows of the ledger table in the order of
-- their ids. The tenant's lock is held over the reads and the writes, so an append is one step.
use zero_trace.Prelude.{
  ℕ, ◌+◌, String, not, Option, none, some, List, [], ◌∷◌, ◌++◌, str_eq, keep, contains, length,
  if◌then◌else◌,
}
use zero_trace.Ledger.Json.{Fields}
use zero_trace.Ledger.Hashing.{Hashing}
use zero_trace.Chains.Records.{Payload, cross_anchor, validate}
use zero_trace.Chains.Fields.{model_dump}

abbrev pub chains : List String
chains = "ctl" ∷ "dp" ∷ []

-- `CHAIN_BY_EVENT`
abbrev pub chain_by_event : String → Option String
chain_by_event e =
    if str_eq e "policy.updated"
    then some "ctl"
    else if str_eq e "request.decided"
    then some "dp"
    else if str_eq e "request.failed"
    then some "dp"
    else none

abbrev pub other_chain : String → String
other_chain c = if str_eq c "ctl" then "dp" else "ctl"

-- The chain that `append` writes to: `chain_name`, or the event's.
abbrev pub route : Option String → String → Option String
route none event = chain_by_event event
route (some c) event = some c

module _ (h : Hashing) (hex : List h.Byte → String) where
  open h use {Byte, sha256, utf8, canonical_json}

  -- A row of the ledger table.
  pub record Row : Type 0 where
    pub id : ℕ
    pub tenant_id : String
    pub chain : String
    pub prev_hash : List Byte
    pub record_hash : List Byte
    pub event_type : String
    pub payload_json : Fields
    pub ts : String

  -- The table, and the id that the database gives to the next row.
  pub record Table : Type 0 where
    pub rows : List Row
    pub next_id : ℕ

  abbrev pub genesis : String → List Byte
  genesis t = sha256 (utf8 t ++ utf8 "zerotrace-genesis")

  -- `compute_hash(prev_hash, record_bytes(...))`
  unfoldable pub record_digest : List Byte → String → String → Fields → String → List Byte
  record_digest prev t event payload ts = sha256 (prev ++ canonical_json t event payload ts)

  abbrev pub of_tenant : String → List Row → List Row
  of_tenant t rows = keep (λ r. str_eq r.tenant_id t) rows

  abbrev pub of_chain : String → List Row → List Row
  of_chain c rows = keep (λ r. str_eq r.chain c) rows

  abbrev pub last_of : List Row → Option Row
  last_of [] = none
  last_of (r ∷ []) = some r
  last_of (r ∷ s ∷ rs) = last_of (s ∷ rs)

  -- `_last_row`
  abbrev pub last_row : String → String → Table → Option Row
  last_row t c table = last_of (of_chain c (of_tenant t table.rows))

  abbrev pub prev_hash_of : String → Option Row → List Byte
  prev_hash_of t none = genesis t
  prev_hash_of t (some r) = r.record_hash

  -- The row of `_append_one`.
  unfoldable pub new_row : ℕ → String → String → String → Fields → Option Row → String → Row
  unfolding record_digest
  new_row id t c event payload previous ts = record {
    id = id;
    tenant_id = t;
    chain = c;
    prev_hash = prev_hash_of t previous;
    record_hash = record_digest (prev_hash_of t previous) t event payload ts;
    event_type = event;
    payload_json = payload;
    ts = ts;
  }

  abbrev pub insert : Row → Table → Table
  insert r table = record { rows = table.rows ++ r ∷ []; next_id = table.next_id + 1 }

  abbrev head_id : Option Row → Option ℕ
  head_id none = none
  head_id (some r) = some r.id

  abbrev head_hash : Option Row → Option String
  head_hash none = none
  head_hash (some r) = some (hex r.record_hash)

  -- The payload of `_append_cross_anchor`, from the other chain's head and count.
  unfoldable pub anchor_payload : String → Option Row → ℕ → Payload
  anchor_payload c other_head other_count = cross_anchor (record {
    chain = c;
    other_chain = other_chain c;
    other_chain_head_id = head_id other_head;
    other_chain_head_hash = head_hash other_head;
    other_chain_count = other_count;
  })

  -- The row that `append` returns and the table after it, or LedgerRecordInvalid, on which the
  -- caller's transaction is rolled back.
  pub data Appended : Type 0 where
    appended : Row → Table → Appended
    record_invalid : Appended

  -- `_append_cross_anchor`
  unfoldable pub append_cross_anchor : String → String → Row → String → Table → Appended
  unfolding anchor_payload new_row
  append_cross_anchor t c main_row ts table =
      elim (validate "chain.cross_anchor" (
        anchor_payload c (last_row t (other_chain c) table)
          (length (of_chain (other_chain c) (of_tenant t table.rows))))) [
            | none ↦ record_invalid
            | some validated ↦ appended main_row (
                insert
                  (new_row table.next_id t c "chain.cross_anchor" (model_dump validated)
                    (some main_row) ts)
                  table)
          ]

  -- `append` after the chain is known and the payload is valid. `ts` and `anchor_ts` are the clock's.
  unfoldable pub append_validated :
      String → String → String → Fields → String → String → Table → Appended
  unfolding append_cross_anchor new_row
  append_validated t c event payload ts anchor_ts table =
      let row = new_row table.next_id t c event payload (last_row t c table) ts in
      append_cross_anchor t c row anchor_ts (insert row table)

  unfoldable pub append_to : String → String → String → Payload → String → String → Table → Appended
  unfolding append_validated
  append_to t c event payload ts anchor_ts table =
      if not (contains c chains) then record_invalid else elim (validate event payload) [
        | none ↦ record_invalid
        | some validated ↦ append_validated t c event (model_dump validated) ts anchor_ts table
      ]

  unfoldable pub append :
      String → String → Payload → Option String → String → String → Table → Appended
  unfolding append_to
  append t event payload chain_name ts anchor_ts table =
      if str_eq event "chain.cross_anchor" then record_invalid else elim (route chain_name event) [
        | none ↦ record_invalid
        | some c ↦ append_to t c event payload ts anchor_ts table
      ]
