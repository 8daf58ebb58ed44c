-- ===== src/Store/Exceptions.antt =====
-- Control-DB/zerotrace/policy/exceptions.py, over the rows of its table. Times are counted in
-- seconds. The column scope, which nothing reads, is left out.
use zero_trace.Prelude.{
  ℕ, String, Bool, true, false, ◌&&◌, Option, none, some, List, [], ◌∷◌, ◌++◌, ◌==◌, ltb, str_eq,
  if◌then◌else◌,
}

pub record PolicyException : Type 0 where
  pub id : ℕ
  pub tenant_id : String
  pub actor_id : Option String
  pub entity_class : String
  pub reason : String
  pub requested_by : String
  pub approved_by : Option String
  pub expires_at : ℕ
  pub created_from_ledger_id : Option ℕ

-- `or_(actor_id == actor, actor_id IS NULL)`
abbrev pub for_actor : String → Option String → Bool
for_actor actor none = true
for_actor actor (some a) = str_eq a actor

abbrev pub is_approved : Option String → Bool
is_approved none = false
is_approved (some by) = true

abbrev pub is_active : ℕ → String → String → PolicyException → Bool
is_active now tenant actor e =
    str_eq e.tenant_id tenant
    && (for_actor actor e.actor_id && (is_approved e.approved_by && ltb now e.expires_at))

-- `active_classes`
unfoldable pub active_classes : ℕ → String → String → List PolicyException → List String
active_classes now tenant actor [] = []
active_classes now tenant actor (e ∷ es) =
    let rest = active_classes now tenant actor es in
    if is_active now tenant actor e then e.entity_class ∷ rest else rest

-- `request_exception`, with the id that the database gives.
unfoldable pub request_exception :
    ℕ
    → String
    → Option String
    → String
    → String
    → String
    → ℕ
    → Option ℕ
    → List PolicyException
    → List PolicyException
request_exception id tenant actor entity_class reason requested_by expires_at ledger_id es =
    es
    ++ record {
      id = id;
      tenant_id = tenant;
      actor_id = actor;
      entity_class = entity_class;
      reason = reason;
      requested_by = requested_by;
      approved_by = none;
      expires_at = expires_at;
      created_from_ledger_id = ledger_id;
    }
      ∷ []

-- The two ValueErrors of `approve`.
pub data Approval : Type 0 where
  approved : List PolicyException → Approval
  not_found own_request : Approval

abbrev keep_first : PolicyException → Approval → Approval
keep_first e (approved es) = approved (e ∷ es)
keep_first e not_found = not_found
keep_first e own_request = own_request

-- `approve`
unfoldable pub approve : ℕ → String → List PolicyException → Approval
approve id by [] = not_found
approve id by (e ∷ es) =
    let rest = approve id by es in
    if e.id == id
    then (if str_eq e.requested_by by
        then own_request
        else approved (record e { approved_by = some by } ∷ es))
    else keep_first e rest
