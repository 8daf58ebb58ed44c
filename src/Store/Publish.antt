-- ===== src/Store/Publish.antt =====
-- `publish`, `rollback_to` and what they call in Control-DB/zerotrace/policy/store.py. The tenant's
-- lock is held from the reads on, so a publication is one step. Nothing is committed here.
use zero_trace.Prelude.{
  ℕ, ◌+◌, String, Bool, true, false, not, Option, none, some, List, [], ◌∷◌, ◌++◌, ◌==◌, length,
  map, if◌then◌else◌,
}
use zero_trace.Policy.{Action, Rule}
use zero_trace.Policy.Lattice.{rank}
use zero_trace.Policy.Publish.{accepted, weakens_org_rule, check_bu_may_only_raise}
use zero_trace.Ledger.Hashing.{Hashing}
use zero_trace.Chains.Bindings.{policy_row_hash}
use zero_trace.Chains.Records.{policy_updated}
use zero_trace.Chains.Rows.{Table, append, appended, record_invalid}
use zero_trace.Gate.Masking.{Mode, shadow, enforce}
use zero_trace.Store.Documents.{
  Yaml, PolicyDraft, Tenant, engine_policy, parse, parse_draft, validate_ownership, stored_yaml,
  strip_version, is_business_unit,
}
use zero_trace.Store.Blobs.{PolicyCache, Redis, invalidate}
use zero_trace.Store.Rows.{PolicyRow, active_row, version_row, deactivate}
use zero_trace.Store.Load.{loaded, no_active_policy, invalid_policy, load, get_tenant}

-- `_check_expected_version`: whether it returns.
unfoldable pub check_expected_version : Option PolicyRow → Option ℕ → Bool
check_expected_version none none = true
check_expected_version (some previous) none = false
check_expected_version none (some expected) = false
check_expected_version (some previous) (some expected) = previous.version == expected

-- The notes of `_diff_summary`, with what they quote.
pub data Note : Type 0 where
  initial_version no_material_change : Note
  default_changed unregistered_changed : Action → Action → Note
  mode_changed : Mode → Mode → Note
  rule_count_changed : ℕ → ℕ → Note
  rule_action_changed : ℕ → Action → Action → Note

abbrev same_action : Action → Action → Bool
same_action a b = rank a == rank b

abbrev same_mode : Mode → Mode → Bool
same_mode shadow shadow = true
same_mode enforce enforce = true
same_mode _ _ = false

abbrev note_unless : Bool → Note → List Note
note_unless true n = []
note_unless false n = n ∷ []

abbrev rule_notes : ℕ → List Rule → List Rule → List Note
rule_notes i (a ∷ as_) (b ∷ bs) =
    note_unless (same_action a.action b.action) (rule_action_changed i a.action b.action)
    ++ rule_notes (i + 1) as_ bs
rule_notes i _ _ = []

abbrev or_no_change : List Note → List Note
or_no_change [] = no_material_change ∷ []
or_no_change (n ∷ ns) = n ∷ ns

unfoldable pub notes_between : PolicyDraft → PolicyDraft → List Note
notes_between old new = or_no_change (
    note_unless (same_action old.default new.default) (default_changed old.default new.default)
    ++ (note_unless (same_mode old.mode new.mode) (mode_changed old.mode new.mode)
        ++ (note_unless (same_action old.unregistered_workload new.unregistered_workload)
              (unregistered_changed old.unregistered_workload new.unregistered_workload)
            ++ (note_unless (length old.rules == length new.rules)
                  (rule_count_changed (length old.rules) (length new.rules))
                ++ rule_notes 0 old.rules new.rules))))

-- `_diff_summary`; none is PolicyValidationError.
unfoldable pub diff_summary : Yaml → Option String → String → Option (List Note)
unfolding parse notes_between
diff_summary yaml none new_yaml = some (initial_version ∷ [])
diff_summary yaml (some old_yaml) new_yaml = elim (parse yaml old_yaml) [
  | none ↦ none
  | some old ↦ elim (parse yaml new_yaml) [
    | none ↦ none
    | some new ↦ some (notes_between old.draft new.draft)
  ]
]

pub data PublishError : Type 0 where
  validation_error tenant_not_found version_conflict no_such_version ledger_record_invalid :
      PublishError
  weakens_org : ℕ → ℕ → PublishError

abbrev pub next_version : Option PolicyRow → ℕ
next_version none = 1
next_version (some previous) = previous.version + 1

abbrev pub version_of : Option PolicyRow → Option ℕ
version_of none = none
version_of (some r) = some r.version

abbrev pub yaml_of : Option PolicyRow → Option String
yaml_of none = none
yaml_of (some r) = some r.yaml

-- What a publication is given besides the state: who publishes, what they expect, the clock of
-- the two ledger rows and Redis at the two cache operations.
pub record Request : Type 0 where
  pub published_by : String
  pub expected_active_version : Option ℕ
  pub ts : String
  pub anchor_ts : String
  pub redis_get : Redis
  pub redis_set : Redis

-- The check of a business unit against its organisation, with the cache after its load.
pub data Raised : Type 0 where
  may_publish : PolicyCache → Raised
  may_not : PublishError → Raised

-- `describe` is the text of a note.
module _ (h : Hashing) (hex : List h.Byte → String) (row_json : String → ℕ → String → List h.Byte)
    (yaml : Yaml) (describe : Note → String) where
  pub record Db : Type 0 where
    pub policies : List PolicyRow
    pub ledger : Table h hex
    pub cache : PolicyCache

  -- A refusal leaves the state to the caller's rollback.
  pub data Publication : Type 0 where
    published : PolicyRow → Db → Publication
    refused : PublishError → Publication

  unfoldable pub check_raise : Request → Tenant → PolicyDraft → ℕ → Db → Raised
  unfolding load check_bu_may_only_raise engine_policy
  check_raise q tenant draft version db = elim tenant.parent_id [
    | none ↦ may_publish db.cache
    | some parent ↦
        elim (load h hex row_json yaml q.redis_get q.redis_set parent db.policies db.cache) [
          | no_active_policy ↦ may_publish db.cache
          | invalid_policy ↦ may_not validation_error
          | loaded org reason hash cache ↦
              elim (check_bu_may_only_raise (engine_policy org)
                (engine_policy (record { draft = draft; version = version }))) [
                  | accepted ↦ may_publish cache
                  | weakens_org_rule b o ↦ may_not (weakens_org b o)
                ]
        ]
  ]

  abbrev pub new_policy_row : String → ℕ → String → PolicyRow
  new_policy_row t version text = record {
    tenant_id = t;
    version = version;
    yaml = text;
    content_hash = policy_row_hash h hex row_json t version text;
    active = true;
  }

  -- The row is inserted and recorded.
  unfoldable pub write :
      Request → PolicyDraft → Option PolicyRow → PolicyRow → PolicyCache → Db → Publication
  unfolding diff_summary append deactivate invalidate
  write q draft previous row cache db = elim (diff_summary yaml (yaml_of previous) row.yaml) [
    | none ↦ refused validation_error
    | some notes ↦
        elim (append h hex row.tenant_id "policy.updated"
          (policy_updated (record {
            version = row.version;
            previous_version = version_of previous;
            published_by = q.published_by;
            rule_count = length draft.rules;
            content_hash = row.content_hash;
            diff_summary = map describe notes;
          }))
          none q.ts q.anchor_ts db.ledger) [
            | record_invalid ↦ refused ledger_record_invalid
            | appended ledger_row ledger ↦ published row (record {
              policies = deactivate row.tenant_id db.policies ++ row ∷ [];
              ledger = ledger;
              cache = invalidate row.tenant_id cache;
            })
          ]
  ]

  -- From the conflict check on.
  unfoldable pub publish_draft : Request → Tenant → PolicyDraft → Db → Publication
  unfolding active_row check_expected_version stored_yaml check_raise write
  publish_draft q tenant draft db =
      let previous = active_row tenant.id db.policies in
      let version = next_version previous in
      if not (check_expected_version previous q.expected_active_version)
      then refused version_conflict
      else elim (check_raise q tenant draft version db) [
        | may_not why ↦ refused why
        | may_publish cache ↦
            write q draft previous
              (new_policy_row tenant.id version
                (stored_yaml yaml draft version (is_business_unit tenant)))
              cache db
      ]

  -- `publish`
  unfoldable pub publish : Request → List Tenant → String → String → Db → Publication
  unfolding parse_draft get_tenant validate_ownership publish_draft
  publish q tenants tenant_id yaml_text db = elim (parse_draft yaml yaml_text) [
    | none ↦ refused validation_error
    | some draft ↦ elim (get_tenant tenant_id tenants) [
      | none ↦ refused tenant_not_found
      | some tenant ↦
          if not (validate_ownership yaml tenant draft yaml_text)
          then refused validation_error
          else publish_draft q tenant draft db
    ]
  ]

  -- `rollback_to`; the request's expected version is not read.
  unfoldable pub rollback_to : Request → List Tenant → String → ℕ → Db → Publication
  unfolding version_row strip_version active_row publish
  rollback_to q tenants tenant_id version db = elim (version_row tenant_id version db.policies) [
    | none ↦ refused no_such_version
    | some row ↦ elim (strip_version yaml row.yaml) [
      | none ↦ refused validation_error
      | some yaml_text ↦
          publish
            (record q { expected_active_version = version_of (active_row tenant_id db.policies) })
            tenants tenant_id yaml_text db
    ]
  ]
