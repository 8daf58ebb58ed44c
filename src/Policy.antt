-- ===== src/Policy.antt =====
-- Control-DB/zerotrace/policy/schema.py, and the parts of identity/resolve.py and spans/model.py
-- that the policy engine reads.
pub mod Lattice
pub mod Matching
pub mod Decide
pub mod Publish
pub mod LastMatch
pub mod Floor
pub mod Raise
pub mod Attribution
mod Tests
use zero_trace.Prelude.{ℕ, String, Bool, not, ◌||◌, Option, List, is_nonempty}

-- `Action`, in the order of the lattice.
pub data Action : Type 0 where
  allow warn tokenize mask block : Action

-- `Direction` of schema.py, `Leg` of spans/model.py.
pub data Leg : Type 0 where
  outbound inbound : Leg

-- `composite_risk_gte` is a float in the source; no operation reads it, and it is kept in
-- thousandths.
pub record Match : Type 0 where
  pub direction : Option Leg
  pub class_ : List String
  pub source : List String
  pub destination : List String
  pub composite_risk_gte : Option ℕ

pub record Clearance : Type 0 where
  pub actor_role : List String
  pub actor_group : List String
  pub destination : List String

unfoldable pub is_empty : Clearance → Bool
is_empty c =
    not (is_nonempty c.actor_role || (is_nonempty c.actor_group || is_nonempty c.destination))

pub record Rule : Type 0 where
  pub match : Match
  pub action : Action
  pub format_preserving : Bool
  pub escalate : Bool
  pub notify : List String
  pub except_ : List Clearance
  pub unless : List Clearance
  pub reason : Option String

-- The fields of `Policy` that the engine reads or quotes.
pub record Policy : Type 0 where
  pub org : String
  pub business_unit : Option String
  pub default : Action
  pub unregistered_workload : Action
  pub rules : List Rule
  pub version : ℕ

pub record Actor : Type 0 where
  pub id : String
  pub role : String
  pub groups : List String
  pub registered : Bool

unfoldable pub is_unregistered : Actor → Bool
is_unregistered a = not a.registered

pub record Finding : Type 0 where
  pub entity_class : String
  pub span_path : String

pub data RuleScope : Type 0 where
  default org bu exception : RuleScope
