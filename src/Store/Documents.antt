-- ===== src/Store/Documents.antt =====
-- Control-DB/zerotrace/policy/schema.py: `parse` and `parse_draft`, and the YAML that
-- Control-DB/zerotrace/policy/store.py stores.
use zero_trace.Prelude.{
  ℕ, String, ◌≡◌, Bool, true, false, not, ◌&&◌, ◌||◌, Option, none, some, List, [], str_eq,
  if◌then◌else◌,
}
use zero_trace.Policy.{Action, allow, mask, Rule, Policy}
use zero_trace.Gate.Masking.{Mode, shadow}

pub data Fail : Type 0 where
  closed open_ : Fail

pub data Promotion : Type 0 where
  auto approve : Promotion

-- The floats in thousandths.
pub record Escalation : Type 0 where
  pub band_lo : ℕ
  pub band_hi : ℕ
  pub sample_rate : ℕ

pub record PolicyDraft : Type 0 where
  pub org : String
  pub business_unit : Option String
  pub mode : Mode
  pub default : Action
  pub unregistered_workload : Action
  pub promotion : Promotion
  pub fail : Fail
  pub rules : List Rule
  pub escalation : Escalation

-- `Policy`: a draft with its version.
pub record StoredPolicy : Type 0 where
  pub draft : PolicyDraft
  pub version : ℕ

-- What the engine reads of a stored policy.
unfoldable pub engine_policy : StoredPolicy → Policy
engine_policy p = record {
  org = p.draft.org;
  business_unit = p.draft.business_unit;
  default = p.draft.default;
  unregistered_workload = p.draft.unregistered_workload;
  rules = p.draft.rules;
  version = p.version;
}

-- The mapping that a YAML text loads to, by the keys of the schema. `invalid` is whether pydantic
-- refuses it for another reason than a missing org or an unknown version: a key that no schema
-- has, or a value of another type.
pub record Document : Type 0 where
  pub version : Option ℕ
  pub org : Option String
  pub business_unit : Option String
  pub mode : Option Mode
  pub default : Option Action
  pub unregistered_workload : Option Action
  pub promotion : Option Promotion
  pub fail : Option Fail
  pub rules : Option (List Rule)
  pub escalation : Option Escalation
  pub invalid : Bool

pub data Loaded : Type 0 where
  unreadable not_mapping : Loaded
  mapping : Document → Loaded

-- The yaml library with the reading of a mapping, and `rstrip() + "\n"`.
pub record Yaml : Type 0 where
  pub safe_load : String → Loaded
  pub safe_dump : Document → String
  pub tidy : String → String

-- The mapping that is dumped loads again, as `_stored_yaml` and as `strip_version` write it.
abbrev pub Rereads : Yaml → Document → Type 0
Rereads yaml d = yaml.safe_load (yaml.tidy (yaml.safe_dump d)) ≡ mapping d

abbrev pub Reloads : Yaml → Document → Type 0
Reloads yaml d = yaml.safe_load (yaml.safe_dump d) ≡ mapping d

abbrev or_default {ℓ} : {A : Type ℓ} → Option A → A → A
or_default none a = a
or_default (some a) b = a

abbrev pub is_some {ℓ} : {A : Type ℓ} → Option A → Bool
is_some none = false
is_some (some a) = true

abbrev no_escalation : Escalation
no_escalation = record { band_lo = 350; band_hi = 750; sample_rate = 150 }

-- `PolicyDraft(**data)`, apart from the version.
unfoldable pub draft_of : Document → Option PolicyDraft
draft_of d = if d.invalid then none else elim d.org [
  | none ↦ none
  | some org ↦ some (record {
    org = org;
    business_unit = d.business_unit;
    mode = or_default d.mode shadow;
    default = or_default d.default allow;
    unregistered_workload = or_default d.unregistered_workload mask;
    promotion = or_default d.promotion auto;
    fail = or_default d.fail closed;
    rules = or_default d.rules [];
    escalation = or_default d.escalation no_escalation;
  })
]

abbrev with_version : Option ℕ → Option PolicyDraft → Option StoredPolicy
with_version (some v) (some draft) = some (record { draft = draft; version = v })
with_version _ _ = none

-- `PolicyDraft.model_dump`, with every key.
abbrev pub document_of : PolicyDraft → Document
document_of d = record {
  version = none;
  org = some d.org;
  business_unit = d.business_unit;
  mode = some d.mode;
  default = some d.default;
  unregistered_workload = some d.unregistered_workload;
  promotion = some d.promotion;
  fail = some d.fail;
  rules = some d.rules;
  escalation = some d.escalation;
  invalid = false;
}

-- What `_stored_yaml` dumps.
unfoldable pub stored_document : PolicyDraft → ℕ → Bool → Document
stored_document d v true = record (document_of d) { version = some v; mode = none; fail = none }
stored_document d v false = record (document_of d) { version = some v }

-- A row of the tenants table.
pub record Tenant : Type 0 where
  pub id : String
  pub parent_id : Option String

abbrev pub is_business_unit : Tenant → Bool
is_business_unit t = is_some t.parent_id

abbrev same_text : Option String → String → Bool
same_text none s = false
same_text (some t) s = str_eq t s

abbrev is_closed : Fail → Bool
is_closed closed = true
is_closed open_ = false

module _ (yaml : Yaml) where
  -- none is PolicyValidationError.
  unfoldable pub parse : String → Option StoredPolicy
  unfolding draft_of
  parse yaml_text = elim (yaml.safe_load yaml_text) [
    | mapping d ↦ with_version d.version (draft_of d)
    | _ ↦ none
  ]

  unfoldable pub parse_draft : String → Option PolicyDraft
  unfolding draft_of
  parse_draft yaml_text = elim (yaml.safe_load yaml_text) [
    | mapping d ↦ if is_some d.version then none else draft_of d
    | _ ↦ none
  ]

  -- `_raw_has_key` of "mode" and of "fail".
  abbrev pub raw_has_mode : String → Bool
  raw_has_mode yaml_text = elim (yaml.safe_load yaml_text) [
    | mapping d ↦ is_some d.mode
    | _ ↦ false
  ]

  abbrev pub raw_has_fail : String → Bool
  raw_has_fail yaml_text = elim (yaml.safe_load yaml_text) [
    | mapping d ↦ is_some d.fail
    | _ ↦ false
  ]

  -- `_validate_ownership`: whether it returns.
  unfoldable pub validate_ownership : Tenant → PolicyDraft → String → Bool
  validate_ownership tenant draft yaml_text = elim tenant.parent_id [
    | none ↦
        str_eq draft.org tenant.id
        && (not (is_some draft.business_unit) && (raw_has_mode yaml_text && is_closed draft.fail))
    | some parent ↦
        str_eq draft.org parent
        && (same_text draft.business_unit tenant.id
            && not (raw_has_mode yaml_text || raw_has_fail yaml_text))
  ]

  -- `_stored_yaml`
  unfoldable pub stored_yaml : PolicyDraft → ℕ → Bool → String
  unfolding stored_document
  stored_yaml draft version is_bu = yaml.tidy (yaml.safe_dump (stored_document draft version is_bu))

  unfoldable pub strip_version : String → Option String
  strip_version yaml_text = elim (yaml.safe_load yaml_text) [
    | mapping d ↦ some (yaml.safe_dump (record d { version = none }))
    | _ ↦ none
  ]
