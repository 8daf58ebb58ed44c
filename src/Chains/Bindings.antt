-- ===== src/Chains/Bindings.antt =====
-- The checks of Control-DB/zerotrace/ledger/chain.py that bind a row to the other chain and to the
-- policy rows: `_cross_anchor_failure`, `_policy_updated_failure` and `_request_decided_failure`.
use zero_trace.Prelude.{
  ℕ, String, not, ◌&&◌, ◌||◌, Option, none, some, List, [], ◌∷◌, ltb, str_eq, keep, contains,
  length, if◌then◌else◌,
}
use zero_trace.Ledger.Json.{Json, text, Fields}
use zero_trace.Ledger.Hashing.{Hashing}
use zero_trace.Chains.Fields.{get, is_null, is_int, is_text}
use zero_trace.Chains.Rows
use zero_trace.Chains.Rows.{chains, last_of}
use zero_trace.Chains.Roots.{Parents, root, cyclic, out_of_fuel, root_tenant}

-- What the detail of a VerifyResult says.
pub data Failure : Type 0 where
  prev_mismatch content_mismatch : Failure
  invalid_other_chain wrong_chain wrong_count head_of_empty_chain wrong_head_id wrong_head_hash :
      Failure
  policy_missing policy_edited : Failure
  hierarchy_cyclic org_policy_missing org_policy_edited bu_policy_missing bu_policy_edited : Failure

-- A row of the policies table: tenant, version and stored YAML.
abbrev pub Policies : Type 0
Policies = List (String × ℕ × String)

-- `policies.get((tenant, version))`: the version that was found and its YAML.
unfoldable pub find_policy : Policies → String → Json → Option (ℕ × String)
find_policy [] t v = none
find_policy ((u, n, yaml) ∷ ps) t v =
    if str_eq u t && is_int n v then some (n, yaml) else find_policy ps t v

-- `other in CHAINS`
abbrev pub known_chain : Json → Option String
known_chain (text c) = if contains c chains then some c else none
known_chain _ = none

-- `row_json` is `canonical_json` of a policy row's tenant, version and YAML.
module _ (h : Hashing) (hex : List h.Byte → String)
    (row_json : String → ℕ → String → List h.Byte) where
  open h use {sha256}

  abbrev pub Row : Type 0
  Row = Rows.Row h hex

  unfoldable pub policy_row_hash : String → ℕ → String → String
  policy_row_hash t version yaml = hex (sha256 (row_json t version yaml))

  -- `[r for r in all_rows if r.chain == other and r.id < row.id]`
  abbrev pub others_before : String → Row → List Row → List Row
  others_before other row all = keep (λ (r : Row). str_eq r.chain other && ltb r.id row.id) all

  -- The comparison of an anchor with the count and the last of the other chain's rows before it.
  unfoldable pub anchor_mismatch : Fields → ℕ → Option Row → Option Failure
  anchor_mismatch payload count last =
      if not (is_int count (get "other_chain_count" payload)) then some wrong_count else elim last [
        | none ↦
            if not (is_null (get "other_chain_head_id" payload))
              || not (is_null (get "other_chain_head_hash" payload))
            then some head_of_empty_chain
            else none
        | some head ↦
            if not (is_int head.id (get "other_chain_head_id" payload))
            then some wrong_head_id
            else if not (is_text (hex head.record_hash) (get "other_chain_head_hash" payload))
            then some wrong_head_hash
            else none
      ]

  -- An anchor in a chain that names another, with that chain's rows before it.
  unfoldable pub named_chain_failure : String → Fields → String → List Row → Option Failure
  unfolding anchor_mismatch
  named_chain_failure chain payload other others =
      if str_eq other chain
      then some invalid_other_chain
      else if not (is_text chain (get "chain" payload))
      then some wrong_chain
      else anchor_mismatch payload (length others) (last_of h hex others)

  unfoldable pub cross_anchor_failure : Row → List Row → Option Failure
  unfolding named_chain_failure
  cross_anchor_failure row all = elim (known_chain (get "other_chain" row.payload_json)) [
    | none ↦ some invalid_other_chain
    | some other ↦
        named_chain_failure row.chain row.payload_json other (others_before other row all)
  ]

  unfoldable pub policy_updated_failure : Row → Policies → Option Failure
  unfolding policy_row_hash
  policy_updated_failure row policies =
      if is_null (get "content_hash" row.payload_json)
      then none
      else elim (find_policy policies row.tenant_id (get "version" row.payload_json)) [
        | none ↦ some policy_missing
        | some (version, yaml) ↦
            if not (
              is_text (policy_row_hash row.tenant_id version yaml)
                (get "content_hash" row.payload_json))
            then some policy_edited
            else none
      ]

  unfoldable pub bu_policy_failure : Row → Policies → Option Failure
  unfolding policy_row_hash
  bu_policy_failure row policies =
      if is_null (get "bu_policy_content_hash" row.payload_json)
      then none
      else elim (find_policy policies row.tenant_id (get "bu_policy_version" row.payload_json)) [
        | none ↦ some bu_policy_missing
        | some (version, yaml) ↦
            if not (
              is_text (policy_row_hash row.tenant_id version yaml)
                (get "bu_policy_content_hash" row.payload_json))
            then some bu_policy_edited
            else none
      ]

  unfoldable pub org_policy_failure : Row → Policies → String → Option Failure
  unfolding policy_row_hash bu_policy_failure
  org_policy_failure row policies org =
      elim (find_policy policies org (get "org_policy_version" row.payload_json)) [
        | none ↦ some org_policy_missing
        | some (version, yaml) ↦
            if not (
              is_text (policy_row_hash org version yaml)
                (get "org_policy_content_hash" row.payload_json))
            then some org_policy_edited
            else bu_policy_failure row policies
      ]

  unfoldable pub request_decided_failure : Row → Policies → Parents → Option Failure
  unfolding org_policy_failure
  request_decided_failure row policies tenants =
      if is_null (get "org_policy_content_hash" row.payload_json)
      then none
      else elim (root_tenant tenants row.tenant_id) [
        | root org ↦ org_policy_failure row policies org
        | cyclic ↦ some hierarchy_cyclic
        | out_of_fuel ↦ some hierarchy_cyclic
      ]

  unfoldable pub binding_failure : Policies → Parents → Row → List Row → Option Failure
  unfolding cross_anchor_failure policy_updated_failure request_decided_failure
  binding_failure policies tenants row all =
      if str_eq row.event_type "chain.cross_anchor"
      then cross_anchor_failure row all
      else if str_eq row.event_type "policy.updated"
      then policy_updated_failure row policies
      else if str_eq row.event_type "request.decided"
      then request_decided_failure row policies tenants
      else none
