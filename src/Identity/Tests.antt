-- ===== src/Identity/Tests.antt =====
-- Requests of a business unit whose root is the organisation, and the theorems at them.
use zero_trace.Prelude.{String, ◌≡◌, refl, true, false, none, some, [], ◌∷◌}
use zero_trace.Chains.Roots.{Parents}
use zero_trace.Identity.Callers.{
  tenant, organisation, mtls, ActorRow, Actor, absent, Request, Settings, actor,
}
use zero_trace.Identity.Resolve.{
  resolve, resolve_in, by_subject, synthetic_unregistered, from_row, unregistered_actor,
  synthetic_row,
}
use zero_trace.Identity.Registered.{IsSelected, IsActor, resolve-IsActor}
use zero_trace.Identity.Unregistered.{resolve_in-promoted}

abbrev sha256 : String → String
sha256 text = "0123456789abcdef"

abbrev tree : Parents
tree = ("unit", some "org") ∷ ("org", none) ∷ []

abbrev gateway : ActorRow
gateway = record {
  id = "a1";
  tenant_id = "org";
  scope = organisation;
  idp_subject = none;
  workload_id = some "spiffe://org/gateway";
  role = "service";
  groups = [];
}

abbrev settings : Settings
settings = record { is_dev = false; default_tenant = "org" }

abbrev stranger : Request
stranger = record {
  tenant_header = some "unit";
  spiffe = none;
  bearer = absent;
  cookie = absent;
  claimed = none;
  user_agent = some "curl";
}

abbrev service : Request
service = record {
  tenant_header = some "unit";
  spiffe = some "spiffe://org/gateway";
  bearer = absent;
  cookie = absent;
  claimed = none;
  user_agent = none;
}

abbrev claim : Request
claim = record {
  tenant_header = some "unit";
  spiffe = none;
  bearer = absent;
  cookie = absent;
  claimed = some "unregistered:0123456789abcdef";
  user_agent = none;
}

abbrev unknown : ActorRow
unknown = synthetic_row sha256 tree "unit" "0123456789abcdef"

abbrev shadow : Actor
shadow = unregistered_actor sha256 tree unknown "unit"

service_is_gateway :
    resolve sha256 tree settings (gateway ∷ []) service
    ≡ actor (from_row gateway mtls "unit") (gateway ∷ [])
unfolding resolve
service_is_gateway = refl

stranger_is_stored :
    synthetic_unregistered sha256 tree (gateway ∷ []) "unit" stranger
    ≡ actor shadow (gateway ∷ unknown ∷ [])
unfolding synthetic_unregistered
stranger_is_stored = refl

no_subject :
    by_subject (gateway ∷ unknown ∷ []) "unit" "unregistered:0123456789abcdef" tenant ≡ none
unfolding by_subject
no_subject = refl

from_row-registered : (from_row gateway mtls "unit").registered ≡ true
unfolding from_row
from_row-registered = refl

resolve-IsActor_example :
    (t : String) × (IsSelected settings tree service t
      × IsActor tree (gateway ∷ []) t (from_row gateway mtls "unit"))
resolve-IsActor_example =
    resolve-IsActor sha256 tree settings (gateway ∷ []) service (from_row gateway mtls "unit")
      (gateway ∷ []) service_is_gateway from_row-registered

resolve_in-promoted_example :
    (b : Actor) × ((resolve_in sha256 tree (gateway ∷ unknown ∷ []) "unit" claim
        ≡ actor b (gateway ∷ unknown ∷ []))
      × ((b.registered ≡ true) × ((b.id ≡ shadow.id) × (shadow.registered ≡ false))))
resolve_in-promoted_example =
    resolve_in-promoted sha256 tree (gateway ∷ []) "unit" stranger claim shadow
      (gateway ∷ unknown ∷ []) "unregistered:0123456789abcdef" stranger_is_stored refl no_subject
      (refl, (refl, (refl, refl)))
