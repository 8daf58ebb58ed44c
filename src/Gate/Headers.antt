-- ===== src/Gate/Headers.antt =====
-- Control-DB/zerotrace/gateway/routes_dataplane.py: `_build_headers`. A value that is not a text
-- yet is kept as what `str` and `join` are applied to.
use zero_trace.Prelude.{ℕ, String, Bool, Option, none, some, List, [], ◌∷◌, ◌++◌, length}
use zero_trace.Policy.{Action, Finding}
use zero_trace.Policy.Decide.{Decision}
use zero_trace.Chains.Records.{sorted_unique}
use zero_trace.Gate.Evidence.{
  Subject, action_name, mode_name, scope_name, bu_policy_version, classes,
}

pub data HeaderValue : Type 0 where
  plain : String → HeaderValue
  lowered : Bool → HeaderValue
  decimal : ℕ → HeaderValue
  joined : List String → HeaderValue

abbrev pub Headers : Type 0
Headers = List (String × HeaderValue)

abbrev optional_header : String → Option HeaderValue → Headers
optional_header name none = []
optional_header name (some v) = (name, v) ∷ []

abbrev rule_headers : Option Decision → Headers
rule_headers none = []
rule_headers (some d) = elim d.rule_index [
  | none ↦ []
  | some i ↦
      ("X-ZeroTrace-Rule-Index", decimal i)
      ∷ ("X-ZeroTrace-Rule-Scope", plain (scope_name d.rule_scope))
      ∷ []
]

abbrev list_header : String → List String → Headers
list_header name [] = []
list_header name (v ∷ vs) = (name, joined (v ∷ vs)) ∷ []

-- `_build_headers`, where `degraded` are the reasons that the source has joined already.
unfoldable pub build_headers :
    Subject
    → String
    → Action
    → Action
    → ℕ
    → Option ℕ
    → List String
    → List (Finding × Decision)
    → List (Finding × Decision)
    → Option Decision
    → String
    → Headers
unfolding sorted_unique
build_headers s session_id overall applied out_id in_id degraded out_pairs in_pairs in_top
      upstream =
    ("X-ZeroTrace-Request-Id", plain s.request_id)
    ∷ ("X-ZeroTrace-Session", plain session_id)
    ∷ ("X-ZeroTrace-Actor", plain s.caller.actor.id)
    ∷ ("X-ZeroTrace-Actor-Source", plain s.caller.source)
    ∷ ("X-ZeroTrace-Actor-Registered", lowered s.caller.actor.registered)
    ∷ ("X-ZeroTrace-Action", plain (action_name overall))
    ∷ ("X-ZeroTrace-Applied-Action", plain (action_name applied))
    ∷ ("X-ZeroTrace-Mode", plain (mode_name s.policies.mode))
    ∷ ("X-ZeroTrace-Org-Policy-Version", decimal s.policies.org.version)
    ∷ ("X-ZeroTrace-Outbound-Ledger-Id", decimal out_id)
    ∷ ("X-ZeroTrace-Outbound-Findings", decimal (length out_pairs))
    ∷ ("X-ZeroTrace-Inbound-Findings", decimal (length in_pairs))
    ∷ ("X-ZeroTrace-Upstream", plain upstream)
    ∷ (optional_header "X-ZeroTrace-BU-Policy-Version"
          (elim (bu_policy_version s.policies) [ none ↦ none | some v ↦ some (decimal v) ])
        ++ (optional_header "X-ZeroTrace-Inbound-Ledger-Id"
              (elim in_id [ none ↦ none | some i ↦ some (decimal i) ])
            ++ (rule_headers in_top
                ++ (list_header "X-ZeroTrace-Inbound-Classes" (sorted_unique (classes in_pairs))
                    ++ list_header "X-ZeroTrace-Degraded" degraded))))
