-- ===== src/Identity/Callers.antt =====
-- The rows of the table of actors, the actors and the requests of
-- Control-DB/zerotrace/identity/resolve.py. An empty header is no header, as `_header` has it.
use zero_trace.Prelude.{String, Bool, Option, List}

pub data Scope : Type 0 where
  tenant organisation : Scope

pub data Source : Type 0 where
  mtls session interception_header unregistered : Source

pub record ActorRow : Type 0 where
  pub id : String
  pub tenant_id : String
  pub scope : Scope
  pub idp_subject : Option String
  pub workload_id : Option String
  pub role : String
  pub groups : List String

pub record Actor : Type 0 where
  pub id : String
  pub tenant_id : String
  pub role : String
  pub scope : Scope
  pub groups : List String
  pub registered : Bool
  pub source : Source
  pub request_tenant_id : String

-- An authorization header that starts with "bearer ", or a session cookie: what it holds is a
-- subject, or does not parse.
pub data Credential : Type 0 where
  absent malformed : Credential
  names : String → Credential

pub record Request : Type 0 where
  pub tenant_header : Option String
  pub spiffe : Option String
  pub bearer : Credential
  pub cookie : Credential
  pub claimed : Option String
  pub user_agent : Option String

-- `env == "dev"` and `default_tenant`.
pub record Settings : Type 0 where
  pub is_dev : Bool
  pub default_tenant : String

pub data IdentityError : Type 0 where
  tenant_required tenant_not_found identity_conflict hierarchy_invalid : IdentityError

pub data Resolved : Type 0 where
  actor : Actor → List ActorRow → Resolved
  failed : IdentityError → Resolved
