-- ===== src/Store/Load.antt =====
-- `_load`, `load_active` and `load_for_tenant` of Control-DB/zerotrace/policy/store.py.
use zero_trace.Prelude.{ℕ, String, Option, none, some, List, [], ◌∷◌, ◌++◌, str_eq, if◌then◌else◌}
use zero_trace.Ledger.Hashing.{Hashing}
use zero_trace.Chains.Bindings.{policy_row_hash}
use zero_trace.Store.Documents.{Yaml, StoredPolicy, parse, Tenant}
use zero_trace.Store.Blobs.{PolicyCache, Redis, get, set, degrade_reason}
use zero_trace.Store.Rows.{PolicyRow, active_row}

-- A policy with the reason of its cache and its content hash, and the cache after the load.
pub data LoadResult : Type 0 where
  loaded : StoredPolicy → Option String → String → PolicyCache → LoadResult
  no_active_policy : LoadResult
  invalid_policy : LoadResult

abbrev pub find_tenant : String → List Tenant → Option Tenant
find_tenant i [] = none
find_tenant i (t ∷ ts) = if str_eq t.id i then some t else find_tenant i ts

-- `session.get(Tenant, tenant_id)`
unfoldable pub get_tenant : String → List Tenant → Option Tenant
get_tenant i ts = find_tenant i ts

-- `ResolvedPolicies`, with the policies as they are stored.
pub record Resolved : Type 0 where
  pub org : StoredPolicy
  pub bu : Option StoredPolicy
  pub org_tenant_id : String
  pub bu_tenant_id : Option String
  pub degraded_reasons : List String
  pub org_policy_content_hash : String
  pub bu_policy_content_hash : Option String

pub data Resolution : Type 0 where
  resolved : Resolved → PolicyCache → Resolution
  tenant_not_found org_without_policy policy_invalid : Resolution

abbrev reasons : Option String → List String
reasons none = []
reasons (some r) = r ∷ []

-- `yaml` is the yaml library, `row_json` the canonical JSON of a row. Of the two operations of a load
-- on the cache, the first finds Redis as in `r`, the second as in `r'`.
module _ (h : Hashing) (hex : List h.Byte → String) (row_json : String → ℕ → String → List h.Byte)
    (yaml : Yaml) where
  -- A cache hit: the reason is read before the parse.
  unfoldable pub load_blob : String → ℕ → String → Option String → PolicyCache → LoadResult
  unfolding parse policy_row_hash
  load_blob t version blob reason c = elim (parse yaml blob) [
    | none ↦ invalid_policy
    | some policy ↦ loaded policy reason (policy_row_hash h hex row_json t version blob) c
  ]

  -- A cache miss: the row's YAML is parsed, then cached.
  unfoldable pub load_row : Redis → String → PolicyRow → PolicyCache → LoadResult
  unfolding parse policy_row_hash set degrade_reason
  load_row r' t row c = elim (parse yaml row.yaml) [
    | none ↦ invalid_policy
    | some policy ↦
        let c' = set r' t row.version row.yaml c in
        loaded policy (degrade_reason c') (policy_row_hash h hex row_json t row.version row.yaml) c'
  ]

  unfoldable pub load_active_row : Redis → Redis → String → PolicyRow → PolicyCache → LoadResult
  unfolding get load_blob load_row degrade_reason
  load_active_row r r' t row c =
      let (cached, c') = get r t row.version c in
      elim cached [
        | some blob ↦ load_blob t row.version blob (degrade_reason c') c'
        | none ↦ load_row r' t row c'
      ]

  -- `_load`. `load_active` is its policy.
  unfoldable pub load : Redis → Redis → String → List PolicyRow → PolicyCache → LoadResult
  unfolding load_active_row active_row
  load r r' t rows c = elim (active_row t rows) [
    | none ↦ no_active_policy
    | some row ↦ load_active_row r r' t row c
  ]

  unfoldable pub resolve_root : Redis → Redis → Tenant → List PolicyRow → PolicyCache → Resolution
  unfolding load
  resolve_root r r' tenant rows c = elim (load r r' tenant.id rows c) [
    | no_active_policy ↦ org_without_policy
    | invalid_policy ↦ policy_invalid
    | loaded org reason hash c' ↦
        resolved
          (record {
            org = org;
            bu = none;
            org_tenant_id = tenant.id;
            bu_tenant_id = none;
            degraded_reasons = reasons reason;
            org_policy_content_hash = hash;
            bu_policy_content_hash = none;
          })
          c'
  ]

  abbrev with_bu :
      String
      → Tenant
      → StoredPolicy
      → Option String
      → String
      → Option StoredPolicy
      → Option String
      → Option String
      → Resolved
  with_bu parent tenant org reason hash bu bu_reason bu_hash = record {
    org = org;
    bu = bu;
    org_tenant_id = parent;
    bu_tenant_id = some tenant.id;
    degraded_reasons = reasons reason ++ reasons bu_reason;
    org_policy_content_hash = hash;
    bu_policy_content_hash = bu_hash;
  }

  unfoldable pub resolve_child :
      (ℕ → Redis) → String → Tenant → List PolicyRow → PolicyCache → Resolution
  unfolding load
  resolve_child redis parent tenant rows c = elim (load (redis 0) (redis 1) parent rows c) [
    | no_active_policy ↦ org_without_policy
    | invalid_policy ↦ policy_invalid
    | loaded org reason hash c' ↦ elim (load (redis 2) (redis 3) tenant.id rows c') [
      | no_active_policy ↦ resolved (with_bu parent tenant org reason hash none none none) c'
      | invalid_policy ↦ policy_invalid
      | loaded bu bu_reason bu_hash c'' ↦
          resolved (with_bu parent tenant org reason hash (some bu) bu_reason (some bu_hash)) c''
    ]
  ]

  -- `load_for_tenant`; `redis` gives the surroundings of the cache operations in turn.
  unfoldable pub load_for_tenant :
      (ℕ → Redis) → String → List Tenant → List PolicyRow → PolicyCache → Resolution
  unfolding get_tenant resolve_root resolve_child
  load_for_tenant redis tenant_id tenants rows c = elim (get_tenant tenant_id tenants) [
    | none ↦ tenant_not_found
    | some tenant ↦ elim tenant.parent_id [
      | none ↦ resolve_root (redis 0) (redis 1) tenant rows c
      | some parent ↦ resolve_child redis parent tenant rows c
    ]
  ]
