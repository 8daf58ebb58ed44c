-- ===== src/Gate/Tests.antt =====
-- Runs of the data plane on small bodies, and its theorems at them.
use mathlib.Core.Path.{subst}
use zero_trace.Prelude.{
  ℕ, String, ◌≡◌, ◌≢◌, ◌↔◌, refl, true, false, none, some, Option, List, [], ◌∷◌, codes, All,
}
use zero_trace.Policy.{warn, Action, allow, mask, outbound, inbound, Policy, Finding, RuleScope}
use zero_trace.Policy.Matching.{rule_matches, last_match, first_applying}
use zero_trace.Policy.Decide.{Decision, decide, decide_all, overall_action}
use zero_trace.Ledger.Model.{model}
use zero_trace.Chains.Records.{validate, check_hash}
use zero_trace.Gate.Node.{Node, text, object, entry, end, walk_strings, value_of, put_key}
use zero_trace.Gate.Paths.{get, set_, parse}
use zero_trace.Gate.Masking.{enforce, AppliedEdit, apply, verify_dispatch}
use zero_trace.Gate.Located.{get-set_}
use zero_trace.Gate.Verified.{InPlace, NoneSurvives, verify_dispatch-InPlace, apply-twice}
use zero_trace.Gate.Evidence.{Subject, Store, top, top_action}
use zero_trace.Gate.Headers.{Headers}
use zero_trace.Gate.Handler.{
  World, Incoming, replied, messages, Response, delivered, decided, blocking, with_request,
}
use zero_trace.Gate.Protocol.{received, Follows}
use zero_trace.Gate.Follows.{terms, Decodable, PayloadDecodes, RepliesDecode, messages-Follows}
use zero_trace.Gate.Outcomes.{Course, delivered-Course, top-overall_action}
use zero_trace.Gate.Kept.{Extends, IsKept, messages-Kept}

-- A body with one text under "t".
abbrev body_of : List ℕ → Node
body_of s = object (entry (codes "t") (text s) end)

abbrev loads : List ℕ → Option Node
loads bytes = some (body_of bytes)

abbrev serialize : Node → List ℕ
serialize (object (entry k (text s) end)) = s
serialize n = []

abbrev py_str : Node → List ℕ
py_str n = codes "None"

abbrev payload : Node
payload = body_of (codes "4111")

abbrev masked : Node
masked = body_of (9608 ∷ 9608 ∷ 9608 ∷ 9608 ∷ [])

abbrev pan : Finding
pan = record { entity_class = "PAN"; span_path = "t" }

abbrev decision : Action → Decision
decision a = record {
  action = a;
  org_policy_version = 1;
  bu_policy_version = none;
  rule_index = some 0;
  rule_scope = RuleScope.org;
  exception_applied = false;
  escalate = false;
  reason = none;
  trace = [];
}

payload-get : get payload "t" ≡ some (text (codes "4111"))
unfolding get parse value_of
payload-get = refl

payload-set_ : set_ payload "t" (text (9608 ∷ 9608 ∷ 9608 ∷ 9608 ∷ [])) ≡ some masked
unfolding set_ parse value_of put_key
payload-set_ = refl

get-set__example : get masked "t" ≡ some (text (9608 ∷ 9608 ∷ 9608 ∷ 9608 ∷ []))
get-set__example = get-set_ payload (text (9608 ∷ 9608 ∷ 9608 ∷ 9608 ∷ [])) masked "t" payload-set_

abbrev edit : AppliedEdit
edit = record {
  span_path = "t";
  original = codes "4111";
  replacement = 9608 ∷ 9608 ∷ 9608 ∷ 9608 ∷ [];
  decision_action = mask;
  applied_action = mask;
}

verify_dispatch-InPlace_example :
    (verify_dispatch loads (serialize masked) (edit ∷ []) ≡ [])
    ↔ (InPlace masked (edit ∷ []) × NoneSurvives (walk_strings masked) (edit ∷ []))
verify_dispatch-InPlace_example =
    verify_dispatch-InPlace loads (serialize masked) masked (edit ∷ []) refl

apply-twice_example :
    verify_dispatch loads
      (9608 ∷ 9608 ∷ 9608 ∷ 9608 ∷ [])
      (apply py_str enforce payload ((pan, decision mask) ∷ (pan, decision mask) ∷ [])).edits
    ≢ []
unfolding apply get set_ parse value_of put_key
apply-twice_example =
    apply-twice py_str loads (9608 ∷ 9608 ∷ 9608 ∷ 9608 ∷ []) payload pan pan (decision mask)
      (decision mask) (codes "4111") refl refl refl payload-get refl

abbrev hash_text : String
hash_text = "0123456789abcdef0123456789abcdef0123456789abcdef0123456789abcdef"

abbrev hex : List model.Byte → String
hex d = hash_text

abbrev org_policy : Policy
org_policy = record {
  org = "acme";
  business_unit = none;
  default = allow;
  unregistered_workload = allow;
  rules =
      record {
        match = record {
          direction = none;
          class_ = "PAN" ∷ [];
          source = [];
          destination = [];
          composite_risk_gte = none;
        };
        action = mask;
        format_preserving = false;
        escalate = false;
        notify = [];
        except_ = [];
        unless = [];
        reason = none;
      }
      ∷ [];
  version = 1;
}

abbrev subject : Subject
subject = record {
  request_id = "r1";
  caller = record {
    actor = record { id = "u1"; role = "clerk"; groups = []; registered = true };
    request_tenant = "acme";
    source = "oidc";
  };
  policies = record {
    org = org_policy;
    bu = none;
    mode = enforce;
    degraded_reasons = [];
    org_policy_content_hash = hash_text;
    bu_policy_content_hash = none;
  };
  upstream_model = "m";
}

abbrev incoming : Incoming
incoming = record {
  payload = payload;
  subject = subject;
  channel = "http";
  destination = none;
  session_header = none;
  allowed = [];
}

-- A detector that finds a PAN in what leaves, an upstream that answers "ok", a database that accepts.
abbrev world : World model hex
world = record {
  py_str = py_str;
  serialize = serialize;
  loads = loads;
  scan = λ body leg. elim leg [ outbound ↦ pan ∷ [] | inbound ↦ [] ];
  detector_reason = none;
  send = λ bytes m. replied (body_of (codes "ok"));
  upstream_name = "stub";
  upstream_reason = some "upstream_stub";
  accepts = λ stage. true;
  meanwhile = λ s. s;
  now = λ stage. "09:00";
  anchor_now = λ stage. "09:01";
  new_session_id = "s1";
  session_now = "08:59";
}

abbrev store : Store model hex
store = record {
  ledger = record { rows = []; next_id = 1 };
  requests = [];
  findings = [];
  sessions = [];
}

abbrev headers_of : Response → Headers
headers_of (delivered hs bytes) = hs
headers_of _ = []

payload-Decodes : PayloadDecodes model hex world incoming
unfolding apply get set_ parse value_of put_key decided decide last_match rule_matches
    first_applying
payload-Decodes = refl

replied_injective : (n m : Node) → replied n ≡ replied m → n ≡ m
replied_injective n m e = cc

replies-Decode : RepliesDecode model hex world incoming
unfolding apply decided
replies-Decode b body e =
    subst
      (λ n.
        Decodable model hex world incoming
          (apply py_str enforce n (decided model hex world incoming inbound n)).payload)
      (replied_injective _ _ e) refl

messages-Follows_example :
    Follows model hex
      (terms model hex world incoming)
      received
      (messages model hex world incoming store).events
      (messages model hex world incoming store).response
messages-Follows_example =
    messages-Follows model hex world incoming payload-Decodes replies-Decode store

messages-Kept_example :
    Extends model hex store (messages model hex world incoming store).store
    × All
        (IsKept model hex (messages model hex world incoming store).store)
        (messages model hex world incoming store).events
messages-Kept_example = messages-Kept model hex world incoming (λ s row m. m) store

run_is_delivered :
    (messages model hex world incoming store).response
    ≡ delivered (headers_of (messages model hex world incoming store).response) (codes "ok")
unfolding messages model decided decide_all blocking with_request apply get set_ parse value_of
    put_key decide last_match rule_matches first_applying validate check_hash
run_is_delivered = refl

delivered-Course_example :
    Course model hex
      (terms model hex world incoming)
      (messages model hex world incoming store).events
      (codes "ok")
delivered-Course_example =
    delivered-Course model hex world incoming payload-Decodes replies-Decode store
      (headers_of (messages model hex world incoming store).response) (codes "ok") run_is_delivered

top-overall_action_example :
    top_action (top ((pan, decision warn) ∷ (pan, decision mask) ∷ []))
    ≡ overall_action ((pan, decision warn) ∷ (pan, decision mask) ∷ []) allow
top-overall_action_example = top-overall_action ((pan, decision warn) ∷ (pan, decision mask) ∷ [])
