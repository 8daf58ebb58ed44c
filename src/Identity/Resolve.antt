-- ===== src/Identity/Resolve.antt =====
-- `resolve` and what it calls in Control-DB/zerotrace/identity/resolve.py, over the rows of the
-- tables of tenants and actors.
use Prim.Native.String.{◌++◌ as append}
use zero_trace.Prelude.{
  ℕ, zero, suc, String, Bool, true, false, ◌&&◌, Option, none, some, List, [], ◌∷◌, ◌++◌, str_eq,
  contains, length, if◌then◌else◌,
}
use zero_trace.Chains.Roots.{Parents}
use zero_trace.Identity.Callers.{
  Scope, tenant, organisation, Source, mtls, session, interception_header, unregistered, ActorRow,
  Actor, Credential, absent, malformed, names, Request, Settings, IdentityError, tenant_required,
  tenant_not_found, identity_conflict, hierarchy_invalid, Resolved, actor, failed,
}

-- `session.get(Tenant, t)`: its parent, if it is there.
abbrev pub get_tenant : Parents → String → Option (Option String)
get_tenant [] t = none
get_tenant ((u, p) ∷ ps) t = if str_eq u t then some p else get_tenant ps t

pub data Selected : Type 0 where
  selected : String → Selected
  not_selected : IdentityError → Selected

abbrev pub existing : Parents → String → Selected
existing ps t = elim (get_tenant ps t) [
  | none ↦ not_selected tenant_not_found
  | some p ↦ selected t
]

-- `resolve_tenant`
unfoldable pub resolve_tenant : Settings → Parents → Request → Selected
resolve_tenant s ps q = elim q.tenant_header [
  | some t ↦ existing ps t
  | none ↦ if s.is_dev then existing ps s.default_tenant else not_selected tenant_required
]

-- The loop of `_root_tenant_id`, with fuel; none is IdentityTenantHierarchyInvalid.
unfoldable pub root_from : Parents → ℕ → List String → String → Option String
root_from ps zero seen t = none
root_from ps (suc n) seen t = if contains t seen then none else elim (get_tenant ps t) [
  | none ↦ none
  | some none ↦ some t
  | some (some p) ↦ root_from ps n (t ∷ seen) p
]

-- `_root_tenant_id`: after one more tenant than there are, one has come again or is missing.
unfoldable pub root_tenant_id : Parents → String → Option String
unfolding root_from
root_tenant_id ps t = root_from ps (suc (length ps)) [] t

abbrev pub same_scope : Scope → Scope → Bool
same_scope tenant tenant = true
same_scope organisation organisation = true
same_scope _ _ = false

abbrev pub is_text : Option String → String → Bool
is_text none v = false
is_text (some u) v = str_eq u v

-- `_by_workload`
unfoldable pub by_workload : List ActorRow → String → String → Scope → Option ActorRow
by_workload [] t v scope = none
by_workload (r ∷ rs) t v scope =
    if str_eq r.tenant_id t && (is_text r.workload_id v && same_scope r.scope scope)
    then some r
    else by_workload rs t v scope

-- `_by_subject`
unfoldable pub by_subject : List ActorRow → String → String → Scope → Option ActorRow
by_subject [] t v scope = none
by_subject (r ∷ rs) t v scope =
    if str_eq r.tenant_id t && (is_text r.idp_subject v && same_scope r.scope scope)
    then some r
    else by_subject rs t v scope

-- `Actor.from_row`
unfoldable pub from_row : ActorRow → Source → String → Actor
from_row r source request_tenant = record {
  id = r.id;
  tenant_id = r.tenant_id;
  role = r.role;
  scope = r.scope;
  groups = r.groups;
  registered = true;
  source = source;
  request_tenant_id = request_tenant;
}

-- What a rung gives: a row, nothing, or the error of the walk to the root.
pub data Found : Type 0 where
  found : ActorRow → Found
  missing : Found
  broken : Found

abbrev pub to_found : Option ActorRow → Found
to_found none = missing
to_found (some r) = found r

-- The subject of steps 3 and 4: none is IdentityConflict.
unfoldable pub subject_of : Credential → Credential → Option (Option String)
subject_of absent absent = some none
subject_of (names b) absent = some (some b)
subject_of malformed absent = some none
subject_of absent (names c) = some (some c)
subject_of absent malformed = some none
subject_of (names b) (names c) = if str_eq b c then some (some b) else none
subject_of (names b) malformed = none
subject_of malformed (names c) = none
subject_of malformed malformed = none

abbrev pub prefixed : String → String → String
prefixed p f = append p f

-- The text that `_fingerprint` digests. `sha256` gives 16 hexadecimal characters of the digest.
abbrev pub fingerprint : (String → String) → String → String → String
fingerprint sha256 t hint = sha256 (append t (append "|" hint))

module _ (sha256 : String → String) (ps : Parents) where
  -- A search of the tenant, then of its root.
  unfoldable pub tenant_then_root : (String → Scope → Option ActorRow) → String → Found
  unfolding root_tenant_id
  tenant_then_root search t = elim (search t tenant) [
    | some r ↦ found r
    | none ↦ elim (root_tenant_id ps t) [
      | none ↦ broken
      | some root ↦ to_found (search root organisation)
    ]
  ]

  unfoldable pub either_way : List ActorRow → String → String → Scope → Option ActorRow
  unfolding by_subject by_workload
  either_way rows v t scope = elim (by_subject rows t v scope) [
    | some r ↦ some r
    | none ↦ by_workload rows t v scope
  ]

  -- Steps 1 and 2.
  unfoldable pub workload_rung : List ActorRow → String → Option String → Found
  unfolding tenant_then_root by_workload
  workload_rung rows t none = missing
  workload_rung rows t (some v) = tenant_then_root (λ u scope. by_workload rows u v scope) t

  -- Steps 3 and 4, for a subject.
  unfoldable pub subject_rung : List ActorRow → String → Option String → Found
  unfolding tenant_then_root by_subject
  subject_rung rows t none = missing
  subject_rung rows t (some v) = tenant_then_root (λ u scope. by_subject rows u v scope) t

  -- Steps 5 and 6.
  unfoldable pub claim_rung : List ActorRow → String → Option String → Found
  unfolding tenant_then_root either_way
  claim_rung rows t none = missing
  claim_rung rows t (some v) = tenant_then_root (either_way rows v) t

  -- `_fingerprint`
  abbrev pub hint_of : Request → String
  hint_of q = elim q.claimed [
    | some c ↦ c
    | none ↦ elim q.user_agent [ some a ↦ a | none ↦ "anonymous" ]
  ]

  abbrev pub unregistered_actor : ActorRow → String → Actor
  unregistered_actor r t = record {
    id = r.id;
    tenant_id = t;
    role = "unregistered";
    scope = tenant;
    groups = [];
    registered = false;
    source = unregistered;
    request_tenant_id = t;
  }

  -- The row of `_synthetic_unregistered`.
  abbrev pub synthetic_row : String → String → ActorRow
  synthetic_row t f = record {
    id = prefixed "act_unreg_" f;
    tenant_id = t;
    scope = tenant;
    idp_subject = none;
    workload_id = some (prefixed "unregistered:" f);
    role = "unregistered";
    groups = [];
  }

  -- `_synthetic_unregistered`
  unfoldable pub synthetic_unregistered : List ActorRow → String → Request → Resolved
  unfolding by_workload
  synthetic_unregistered rows t q =
      let f = fingerprint sha256 t (hint_of q) in
      elim (by_workload rows t (prefixed "unregistered:" f) tenant) [
        | some r ↦ actor (unregistered_actor r t) rows
        | none ↦ actor (unregistered_actor (synthetic_row t f) t) (rows ++ synthetic_row t f ∷ [])
      ]

  abbrev pub or_else : Found → List ActorRow → Source → String → Resolved → Resolved
  or_else (found r) rows source t rest = actor (from_row r source t) rows
  or_else missing rows source t rest = rest
  or_else broken rows source t rest = failed hierarchy_invalid

  -- `resolve` for the tenant that is selected.
  unfoldable pub resolve_in : List ActorRow → String → Request → Resolved
  unfolding workload_rung subject_rung claim_rung subject_of synthetic_unregistered from_row
  resolve_in rows t q =
      or_else (workload_rung rows t q.spiffe) rows mtls t (elim (subject_of q.bearer q.cookie) [
        | none ↦ failed identity_conflict
        | some subject ↦ or_else (subject_rung rows t subject) rows session t (
            or_else (claim_rung rows t q.claimed) rows interception_header t
              (synthetic_unregistered rows t q))
      ])

  -- `resolve`
  unfoldable pub resolve : Settings → List ActorRow → Request → Resolved
  unfolding resolve_tenant resolve_in
  resolve s rows q = elim (resolve_tenant s ps q) [
    | not_selected why ↦ failed why
    | selected t ↦ resolve_in rows t q
  ]
