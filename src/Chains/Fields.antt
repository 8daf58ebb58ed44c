-- ===== src/Chains/Fields.antt =====
-- A validated record of Control-DB/zerotrace/ledger/records.py as the JSON that `model_dump` gives,
-- and the `payload.get` of Control-DB/zerotrace/ledger/chain.py with its comparisons.
use zero_trace.Prelude.{
  ℕ, String, Bool, true, false, Option, none, some, List, [], ◌∷◌, ◌==◌, str_eq, if◌then◌else◌,
}
use zero_trace.Ledger.Json.{
  Json, null, boolean, integer, text, array, Items, done, item, Fields, end, field,
}
use zero_trace.Chains.Records.{
  RequestDecided, Payload, policy_updated, request_decided, request_failed, cross_anchor,
}

abbrev optional_int : Option ℕ → Json
optional_int none = null
optional_int (some n) = integer n

abbrev optional_text : Option String → Json
optional_text none = null
optional_text (some v) = text v

abbrev items : List String → Items
items [] = done
items (v ∷ vs) = item (text v) (items vs)

-- The fields of a decided request from `org_policy_version` on.
abbrev decided_tail : RequestDecided → Fields
decided_tail p = field "org_policy_version" (integer p.org_policy_version) (
    field "org_policy_content_hash" (text p.org_policy_content_hash) (
      field "bu_policy_version" (optional_int p.bu_policy_version) (
        field "bu_policy_content_hash" (optional_text p.bu_policy_content_hash) (
          field "exception_applied" (boolean p.exception_applied) (
            field "finding_classes" (array (items p.finding_classes)) (
              field "finding_paths" (array (items p.finding_paths)) (
                field "upstream_model" (text p.upstream_model) (
                  field "degraded_reasons" (array (items p.degraded_reasons))
                    (field "truncated" (boolean p.truncated) end)))))))))

-- `model_dump(mode="json")`
unfoldable pub model_dump : Payload → Fields
model_dump (policy_updated p) = field "version" (integer p.version) (
    field "previous_version" (optional_int p.previous_version) (
      field "published_by" (text p.published_by) (
        field "rule_count" (integer p.rule_count) (
          field "content_hash" (text p.content_hash)
            (field "diff_summary" (array (items p.diff_summary)) end)))))
model_dump (request_decided p) = field "request_id" (text p.request_id) (
    field "actor_id" (text p.actor_id) (
      field "actor_registered" (boolean p.actor_registered) (
        field "leg" (text p.leg) (
          field "decision_action" (text p.decision_action) (
            field "applied_action" (text p.applied_action) (
              field "mode" (text p.mode) (
                field "rule_index" (optional_int p.rule_index)
                  (field "rule_scope" (text p.rule_scope) (decided_tail p)))))))))
model_dump (request_failed p) = field "request_id" (text p.request_id) (
    field "stage" (text p.stage) (
      field "code" (text p.code) (
        field "upstream_model" (text p.upstream_model) (
          field "org_policy_version" (integer p.org_policy_version)
            (field "bu_policy_version" (optional_int p.bu_policy_version) end)))))
model_dump (cross_anchor p) = field "chain" (text p.chain) (
    field "other_chain" (text p.other_chain) (
      field "other_chain_head_id" (optional_int p.other_chain_head_id) (
        field "other_chain_head_hash" (optional_text p.other_chain_head_hash)
          (field "other_chain_count" (integer p.other_chain_count) end))))

-- `payload.get(key)`: null stands for None.
unfoldable pub get : String → Fields → Json
get key end = null
get key (field k v rest) = if str_eq k key then v else get key rest

-- `v is None`
abbrev pub is_null : Json → Bool
is_null null = true
is_null _ = false

-- `v == n`, for a payload value that is not a float.
abbrev pub is_int : ℕ → Json → Bool
is_int n (integer m) = m == n
is_int n (boolean true) = n == 1
is_int n (boolean false) = n == 0
is_int n _ = false

-- `v == s`
abbrev pub is_text : String → Json → Bool
is_text s (text t) = str_eq t s
is_text s _ = false
