-- ===== src/Chains/Records.antt =====
-- Control-DB/zerotrace/ledger/records.py: the record schemas with their validators. That a dict
-- has a schema's fields and no others is pydantic's check; a record here has them.
use zero_trace.Prelude.{
  codes_less, ℕ, String, Bool, true, false, not, ◌&&◌, ◌||◌, Option, none, some, List, [], ◌∷◌,
  ◌==◌, ltb, leb, str_eq, codes, length, contains, if◌then◌else◌,
}

-- `_HEX64`
abbrev is_hex_char : ℕ → Bool
is_hex_char c = (leb b'0' c && leb c b'9') || (leb b'a' c && leb c b'f')

all_hex : List ℕ → Bool
all_hex [] = true
all_hex (c ∷ cs) = is_hex_char c && all_hex cs

-- `_check_hash`: whether it returns.
unfoldable pub check_hash : String → Bool
unfolding all_hex
check_hash v = (length (codes v) == 64) && all_hex (codes v)

abbrev pub check_optional : Option String → Bool
check_optional none = true
check_optional (some v) = check_hash v

pub record PolicyUpdated : Type 0 where
  pub version : ℕ
  pub previous_version : Option ℕ
  pub published_by : String
  pub rule_count : ℕ
  pub content_hash : String
  pub diff_summary : List String

-- The fields with a Literal type hold a text, which `check_payload` compares with the literals.
pub record RequestDecided : Type 0 where
  pub request_id : String
  pub actor_id : String
  pub actor_registered : Bool
  pub leg : String
  pub decision_action : String
  pub applied_action : String
  pub mode : String
  pub rule_index : Option ℕ
  pub rule_scope : String
  pub org_policy_version : ℕ
  pub org_policy_content_hash : String
  pub bu_policy_version : Option ℕ
  pub bu_policy_content_hash : Option String
  pub exception_applied : Bool
  pub finding_classes : List String
  pub finding_paths : List String
  pub upstream_model : String
  pub degraded_reasons : List String
  pub truncated : Bool

pub record RequestFailed : Type 0 where
  pub request_id : String
  pub stage : String
  pub code : String
  pub upstream_model : String
  pub org_policy_version : ℕ
  pub bu_policy_version : Option ℕ

pub record ChainCrossAnchor : Type 0 where
  pub chain : String
  pub other_chain : String
  pub other_chain_head_id : Option ℕ
  pub other_chain_head_hash : Option String
  pub other_chain_count : ℕ

-- `_no_free_text`
unfoldable pub no_free_text : List String → Bool
no_free_text [] = true
no_free_text (v ∷ vs) = if ltb 200 (length (codes v)) then false else no_free_text vs

insert_unique : String → List String → List String
insert_unique v [] = v ∷ []
insert_unique v (w ∷ ws) =
    let rest = insert_unique v ws in
    if str_eq v w then w ∷ ws else if codes_less (codes v) (codes w) then v ∷ w ∷ ws else w ∷ rest

-- `_sorted_unique`: `sorted(set(v))`
unfoldable pub sorted_unique : List String → List String
unfolding insert_unique
sorted_unique [] = []
sorted_unique (v ∷ vs) = insert_unique v (sorted_unique vs)

abbrev is_some {ℓ} : {A : Type ℓ} → Option A → Bool
is_some none = false
is_some (some x) = true

-- `_LEG`, `_DECISION_ACTION`, `_APPLIED_ACTION`, `_MODE`, the stage of RequestFailed and `_CHAIN`.
abbrev pub legs : List String
legs = "outbound" ∷ "inbound" ∷ []

abbrev pub decision_actions : List String
decision_actions = "allow" ∷ "warn" ∷ "tokenize" ∷ "mask" ∷ "block" ∷ []

abbrev pub applied_actions : List String
applied_actions = "allow" ∷ "warn" ∷ "mask" ∷ "block" ∷ []

abbrev pub modes : List String
modes = "shadow" ∷ "enforce" ∷ []

abbrev pub stages : List String
stages = "outbound" ∷ "inbound" ∷ "upstream" ∷ []

abbrev pub chain_names : List String
chain_names = "ctl" ∷ "dp" ∷ []

-- The literals of a RequestDecided.
unfoldable pub check_literals : RequestDecided → Bool
check_literals p =
    contains p.leg legs
    && (contains p.decision_action decision_actions
        && (contains p.applied_action applied_actions && contains p.mode modes))

-- `_must_differ`, `_head_shape` and `_head_fields_agree`
unfoldable pub check_anchor : ChainCrossAnchor → Bool
check_anchor a =
    if str_eq a.other_chain a.chain
    then false
    else if not (check_optional a.other_chain_head_hash)
    then false
    else elim a.other_chain_head_id [
      | none ↦ not (is_some a.other_chain_head_hash) && (a.other_chain_count == 0)
      | some i ↦ is_some a.other_chain_head_hash && not (ltb a.other_chain_count 1)
    ]

pub data Payload : Type 0 where
  policy_updated : PolicyUpdated → Payload
  request_decided : RequestDecided → Payload
  request_failed : RequestFailed → Payload
  cross_anchor : ChainCrossAnchor → Payload

-- The key of `REGISTRY` that the payload's schema stands under.
abbrev pub event_of : Payload → String
event_of (policy_updated _) = "policy.updated"
event_of (request_decided _) = "request.decided"
event_of (request_failed _) = "request.failed"
event_of (cross_anchor _) = "chain.cross_anchor"

unfoldable pub check_payload : Payload → Option Payload
unfolding check_literals no_free_text check_anchor sorted_unique
check_payload (policy_updated p) =
    if check_hash p.content_hash then some (policy_updated p) else none
check_payload (request_decided p) =
    if check_literals p
      && (check_hash p.org_policy_content_hash
          && (check_optional p.bu_policy_content_hash
              && (no_free_text p.finding_classes && no_free_text p.finding_paths)))
    then some (request_decided (record p { degraded_reasons = sorted_unique p.degraded_reasons }))
    else none
check_payload (request_failed p) = if contains p.stage stages then some (request_failed p) else none
check_payload (cross_anchor p) =
    if contains p.chain chain_names && (contains p.other_chain chain_names && check_anchor p)
    then some (cross_anchor p)
    else none

-- `validate`: none is LedgerRecordInvalid. A payload of another schema is refused.
unfoldable pub validate : String → Payload → Option Payload
unfolding check_payload
validate event p = if str_eq (event_of p) event then check_payload p else none
