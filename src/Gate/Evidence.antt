-- ===== src/Gate/Evidence.antt =====
-- Control-DB/zerotrace/gateway/routes_dataplane.py: `_applied_action`, `_session_row` and
-- `_record_leg`, over the rows of the tables they write.
use zero_trace.Prelude.{
  ℕ, String, false, ◌||◌, not, Option, none, some, List, [], ◌∷◌, ◌++◌, ltb, str_eq, if◌then◌else◌,
}
use zero_trace.Policy.{
  Action, allow, warn, tokenize, mask, block, Leg, outbound, inbound, Policy, Actor, Finding,
  RuleScope,
}
use zero_trace.Policy.Lattice.{rank}
use zero_trace.Policy.Decide.{Decision}
use zero_trace.Ledger.Hashing.{Hashing}
use zero_trace.Chains.Records.{Payload, request_decided, sorted_unique}
use zero_trace.Chains.Rows
use zero_trace.Chains.Rows.{Table, append, appended, record_invalid}
use zero_trace.Gate.Masking.{Mode, shadow, enforce}

abbrev pub action_name : Action → String
action_name allow = "allow"
action_name warn = "warn"
action_name tokenize = "tokenize"
action_name mask = "mask"
action_name block = "block"

abbrev pub leg_name : Leg → String
leg_name outbound = "outbound"
leg_name inbound = "inbound"

abbrev pub mode_name : Mode → String
mode_name shadow = "shadow"
mode_name enforce = "enforce"

abbrev pub scope_name : RuleScope → String
scope_name RuleScope.default = "default"
scope_name RuleScope.org = "org"
scope_name RuleScope.bu = "bu"
scope_name RuleScope.exception = "exception"

-- `_applied_action`
unfoldable pub applied_action : Action → Mode → Action
applied_action a shadow = allow
applied_action tokenize enforce = mask
applied_action a enforce = a

-- The actor of the request, with the fields that only the route reads.
pub record Caller : Type 0 where
  pub actor : Actor
  pub request_tenant : String
  pub source : String

-- `ResolvedPolicies`; `mode` is the org policy's.
pub record ResolvedPolicies : Type 0 where
  pub org : Policy
  pub bu : Option Policy
  pub mode : Mode
  pub degraded_reasons : List String
  pub org_policy_content_hash : String
  pub bu_policy_content_hash : Option String

abbrev pub bu_policy_version : ResolvedPolicies → Option ℕ
bu_policy_version p = elim p.bu [ none ↦ none | some b ↦ some b.version ]

pub record SessionRow : Type 0 where
  pub id : String
  pub tenant_id : String
  pub actor_id : String
  pub channel : String
  pub last_seen_at : String

pub data SessionFound : Type 0 where
  session_found : SessionRow → List SessionRow → SessionFound
  session_unknown session_actor_mismatch : SessionFound

abbrev pub find_session : String → List SessionRow → Option SessionRow
find_session i [] = none
find_session i (s ∷ ss) = if str_eq s.id i then some s else find_session i ss

abbrev pub touch : String → String → List SessionRow → List SessionRow
touch i now [] = []
touch i now (s ∷ ss) =
    let rest = touch i now ss in
    if str_eq s.id i then record s { last_seen_at = now } ∷ ss else s ∷ rest

-- `_session_row`, where `new_id` is a fresh session id and `now` the clock's.
unfoldable pub session_row :
    Caller → String → Option String → String → String → List SessionRow → SessionFound
session_row caller channel (some requested) new_id now sessions =
    elim (find_session requested sessions) [
      | none ↦ session_unknown
      | some row ↦
          if not (str_eq row.tenant_id caller.request_tenant)
            || not (str_eq row.actor_id caller.actor.id)
          then session_actor_mismatch
          else session_found (record row { last_seen_at = now }) (touch requested now sessions)
    ]
session_row caller channel none new_id now sessions =
    let row : SessionRow = record {
      id = new_id;
      tenant_id = caller.request_tenant;
      actor_id = caller.actor.id;
      channel = channel;
      last_seen_at = now;
    } in
    session_found row (sessions ++ row ∷ [])

pub record FindingRow : Type 0 where
  pub request_id : String
  pub leg : Leg
  pub span_path : String
  pub entity_class : String
  pub decision_action : Action
  pub applied_action : Action

pub data Status : Type 0 where
  outbound_decided completed upstream_failed : Status

pub record RequestRow : Type 0 where
  pub id : String
  pub session_id : String
  pub tenant_id : String
  pub upstream_model : String
  pub status : Status
  pub decision_action : Action
  pub applied_action : Action
  pub mode : Mode
  pub org_policy_version : ℕ
  pub bu_policy_version : Option ℕ
  pub degraded : List String

-- Python's `max(pairs, key=rank, default=None)` on the decisions: the first of the strongest.
abbrev pub stronger_decision : Decision → Decision → Decision
stronger_decision d e = if ltb (rank d.action) (rank e.action) then e else d

abbrev pub top_from : Decision → List (Finding × Decision) → Decision
top_from d [] = d
top_from d ((f, e) ∷ pairs) = top_from (stronger_decision d e) pairs

abbrev pub top : List (Finding × Decision) → Option Decision
top [] = none
top ((f, d) ∷ pairs) = some (top_from d pairs)

abbrev pub top_action : Option Decision → Action
top_action none = allow
top_action (some d) = d.action

-- What the legs of one request share in their records.
pub record Subject : Type 0 where
  pub request_id : String
  pub caller : Caller
  pub policies : ResolvedPolicies
  pub upstream_model : String

abbrev finding_rows : Subject → Leg → List (Finding × Decision) → List FindingRow
finding_rows s leg [] = []
finding_rows s leg ((f, d) ∷ pairs) =
    record {
      request_id = s.request_id;
      leg = leg;
      span_path = f.span_path;
      entity_class = f.entity_class;
      decision_action = d.action;
      applied_action = applied_action d.action s.policies.mode;
    }
    ∷ finding_rows s leg pairs

abbrev pub classes : List (Finding × Decision) → List String
classes [] = []
classes ((f, d) ∷ pairs) = f.entity_class ∷ classes pairs

abbrev span_paths : List (Finding × Decision) → List String
span_paths [] = []
span_paths ((f, d) ∷ pairs) = f.span_path ∷ span_paths pairs

-- The payload of the ledger record.
abbrev pub leg_payload : Subject → Leg → List (Finding × Decision) → List String → Payload
unfolding applied_action sorted_unique
leg_payload s leg pairs degraded =
    let t = top pairs in
    request_decided (record {
      request_id = s.request_id;
      actor_id = s.caller.actor.id;
      actor_registered = s.caller.actor.registered;
      leg = leg_name leg;
      decision_action = action_name (top_action t);
      applied_action = action_name (applied_action (top_action t) s.policies.mode);
      mode = mode_name s.policies.mode;
      rule_index = elim t [ none ↦ none | some d ↦ d.rule_index ];
      rule_scope = elim t [ none ↦ "default" | some d ↦ scope_name d.rule_scope ];
      org_policy_version = s.policies.org.version;
      org_policy_content_hash = s.policies.org_policy_content_hash;
      bu_policy_version = bu_policy_version s.policies;
      bu_policy_content_hash = s.policies.bu_policy_content_hash;
      exception_applied = elim t [ none ↦ false | some d ↦ d.exception_applied ];
      finding_classes = classes pairs;
      finding_paths = span_paths pairs;
      upstream_model = s.upstream_model;
      degraded_reasons = sorted_unique degraded;
      truncated = false;
    })

module _ (h : Hashing) (hex : List h.Byte → String) where
  -- The tables that the route writes.
  pub record Store : Type 0 where
    pub ledger : Table h hex
    pub requests : List RequestRow
    pub findings : List FindingRow
    pub sessions : List SessionRow

  -- What `_record_leg` does before the commit, and the ledger row whose id it returns.
  pub data Recorded : Type 0 where
    recorded : Rows.Row h hex → Store → Recorded
    unrecordable : Recorded

  -- `ts` and `anchor_ts` are the clock's at the two ledger rows.
  unfoldable pub record_leg :
      Subject → Leg → List (Finding × Decision) → List String → String → String → Store → Recorded
  unfolding applied_action sorted_unique
  record_leg s leg pairs degraded ts anchor_ts store =
      elim (append h hex s.caller.request_tenant "request.decided"
        (leg_payload s leg pairs degraded) none ts anchor_ts store.ledger) [
          | record_invalid ↦ unrecordable
          | appended row table ↦ recorded row (record store {
            ledger = table;
            findings = store.findings ++ finding_rows s leg pairs;
          })
        ]
