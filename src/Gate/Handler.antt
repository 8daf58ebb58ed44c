-- ===== src/Gate/Handler.antt =====
-- Control-DB/zerotrace/gateway/routes_dataplane.py: `messages`, stage by stage. The detector, the
-- upstream, the clock, json and the failures of the database are parameters.
use zero_trace.Prelude.{
  ℕ, String, Bool, true, false, ◌&&◌, not, Option, none, some, List, [], ◌∷◌, ◌++◌, str_eq, map,
  if◌then◌else◌,
}
use zero_trace.Policy.{Action, allow, block, Leg, outbound, inbound, Finding}
use zero_trace.Policy.Lattice.{strongest}
use zero_trace.Policy.Decide.{Decision, decide_all, overall_action}
use zero_trace.Ledger.Hashing.{Hashing}
use zero_trace.Chains.Records.{Payload, request_failed, sorted_unique}
use zero_trace.Chains.Rows
use zero_trace.Chains.Rows.{Table, append, appended, record_invalid}
use zero_trace.Gate.Node.{Node}
use zero_trace.Gate.Masking.{
  Mode, shadow, enforce, Reason, tokenize_needs_vault, redaction_span_missing, RedactionResult,
  apply, verify_dispatch,
}
use zero_trace.Gate.Evidence.{
  applied_action, bu_policy_version, SessionRow, session_found, session_unknown,
  session_actor_mismatch, session_row, outbound_decided, completed, upstream_failed, RequestRow,
  top, Subject, Store, recorded, unrecordable, record_leg,
}
use zero_trace.Gate.Headers.{Headers, build_headers}

-- The transactions that hold evidence.
pub data Stage : Type 0 where
  outbound_evidence failure_evidence inbound_evidence : Stage

-- What `upstream.send` gives: the code of an UpstreamError, or the decoded body.
pub data Reply : Type 0 where
  send_failed : String → Reply
  replied : Node → Reply

pub data Refusal : Type 0 where
  unknown_session actor_mismatch : Refusal
  dispatch_verification_failed : List String → Refusal
  ledger_unavailable ledger_record_invalid : Refusal

pub data Response : Type 0 where
  delivered : Headers → List ℕ → Response
  blocked_outbound : Headers → ℕ → Response
  blocked_inbound : Headers → ℕ → Response
  bad_gateway : Headers → String → ℕ → Response
  refused : Refusal → Response

-- What the route reads of the request and of the stores before it decides.
pub record Incoming : Type 0 where
  pub payload : Node
  pub subject : Subject
  pub channel : String
  pub destination : Option String
  pub session_header : Option String
  pub allowed : List String

-- An outbound or inbound body that may leave: after the edits, with its exact bytes.
pub data Prepared : Type 0 where
  prepared : RedactionResult → List ℕ → Prepared
  unverifiable : List String → Prepared

abbrev pub is_enforce : Mode → Bool
is_enforce shadow = false
is_enforce enforce = true

abbrev pub is_block : Action → Bool
is_block block = true
is_block _ = false

abbrev reason_name : Reason → String
reason_name tokenize_needs_vault = "tokenize_needs_vault"
reason_name redaction_span_missing = "redaction_span_missing"

abbrev optional_reason : Option String → List String
optional_reason none = []
optional_reason (some r) = r ∷ []

abbrev pub untouched : Node → RedactionResult
untouched body = record { payload = body; edits = []; degrade_reasons = []; misses = [] }

abbrev pub request_known : String → List RequestRow → Bool
request_known i [] = false
request_known i (r ∷ rs) = if str_eq r.id i then true else request_known i rs

-- An assignment to fields of `req_row`.
abbrev update_request : String → (RequestRow → RequestRow) → List RequestRow → List RequestRow
update_request i f [] = []
update_request i f (r ∷ rs) =
    let rest = update_request i f rs in if str_eq r.id i then f r ∷ rs else r ∷ rest

abbrev pub failure_payload : Incoming → String → Payload
failure_payload q code = request_failed (record {
  request_id = q.subject.request_id;
  stage = "upstream";
  code = code;
  upstream_model = q.subject.upstream_model;
  org_policy_version = q.subject.policies.org.version;
  bu_policy_version = bu_policy_version q.subject.policies;
})

module _ (h : Hashing) (hex : List h.Byte → String) where
  -- `accepts` says whether the database accepts the writes of a transaction, and `meanwhile` is
  -- what other requests commit while this one waits for the upstream.
  pub record World : Type 0 where
    pub py_str : Node → List ℕ
    pub serialize : Node → List ℕ
    pub loads : List ℕ → Option Node
    pub scan : Node → Leg → List Finding
    pub detector_reason : Option String
    pub send : List ℕ → String → Reply
    pub upstream_name : String
    pub upstream_reason : Option String
    pub accepts : Stage → Bool
    pub meanwhile : Store h hex → Store h hex
    pub now : Stage → String
    pub anchor_now : Stage → String
    pub new_session_id : String
    pub session_now : String

  pub data Event : Type 0 where
    committed : Stage → Rows.Row h hex → Event
    dispatched : List ℕ → Event

  -- What a request leaves: its events in order, the durable tables, and the answer.
  pub record Run : Type 0 where
    pub events : List Event
    pub store : Store h hex
    pub response : Response

  abbrev pub after : List Event → Run → Run
  after es r = record r { events = es ++ r.events }

  abbrev pub stopped : Store h hex → Refusal → Run
  stopped store why = record { events = []; store = store; response = refused why }

  module _ (w : World) (q : Incoming) where
    abbrev pub mode : Mode
    mode = q.subject.policies.mode

    -- Steps 2 and 3 of a leg.
    unfoldable pub decided : Leg → Node → List (Finding × Decision)
    unfolding decide_all
    decided leg body =
        decide_all q.subject.policies.org q.subject.caller.actor (w.scan body leg) leg
          q.subject.policies.bu q.destination q.allowed

    -- The check of a body after its edits.
    unfoldable pub check_body : RedactionResult → Prepared
    unfolding verify_dispatch
    check_body r = elim r.misses [
      | p ∷ ps ↦ unverifiable (p ∷ ps)
      | [] ↦ elim (verify_dispatch w.loads (w.serialize r.payload) r.edits) [
        | [] ↦ prepared r (w.serialize r.payload)
        | p ∷ ps ↦ unverifiable (p ∷ ps)
      ]
    ]

    -- The edits and the check of one body; `acts` is whether `apply` is called.
    unfoldable pub prepare : Bool → Node → List (Finding × Decision) → Prepared
    unfolding apply check_body
    prepare acts body pairs =
        check_body (if acts then apply w.py_str mode body pairs else untouched body)

    abbrev pub reasons_of : RedactionResult → List String
    reasons_of r = map reason_name r.degrade_reasons

    -- `degrade` before the outbound leg.
    abbrev pub first_reasons : List String
    first_reasons =
        optional_reason w.detector_reason
        ++ (optional_reason w.upstream_reason ++ q.subject.policies.degraded_reasons)

    -- From the inbound evidence on, for a body that is prepared.
    unfoldable pub record_inbound :
        String
        → ℕ
        → List (Finding × Decision)
        → List (Finding × Decision)
        → List String
        → List ℕ
        → Store h hex
        → Run
    unfolding record_leg overall_action applied_action strongest sorted_unique build_headers
    record_inbound session_id out_id out_pairs in_pairs degrade bytes store =
        let out_action = overall_action out_pairs allow in
        let in_action = overall_action in_pairs allow in
        let overall = strongest out_action (in_action ∷ []) in
        let applied = applied_action overall mode in
        let degraded = sorted_unique degrade in
        elim (record_leg h hex q.subject inbound in_pairs degraded (w.now inbound_evidence)
          (w.anchor_now inbound_evidence) store) [
            | unrecordable ↦ stopped store ledger_record_invalid
            | recorded row kept ↦
                if not (w.accepts inbound_evidence)
                then stopped store ledger_unavailable
                else let headers =
                    build_headers q.subject session_id overall applied out_id (some row.id) degraded
                      out_pairs in_pairs (top in_pairs) w.upstream_name in
                  record {
                    events = committed inbound_evidence row ∷ [];
                    store = record kept {
                      requests =
                          update_request q.subject.request_id
                            (λ (r : RequestRow). record r {
                              status = completed;
                              decision_action = overall;
                              applied_action = applied;
                              degraded = degraded;
                            })
                            kept.requests;
                    };
                    response =
                        if is_block in_action && is_enforce mode
                        then blocked_inbound headers row.id
                        else delivered headers bytes;
                  }
          ]

    -- The inbound leg.
    unfoldable pub answer :
        String → ℕ → List (Finding × Decision) → List String → Node → Store h hex → Run
    unfolding prepare record_inbound
    answer session_id out_id out_pairs degrade body store =
        let in_pairs = decided inbound body in
        elim (prepare (is_enforce mode) body in_pairs) [
          | unverifiable spans ↦ stopped store (dispatch_verification_failed spans)
          | prepared r bytes ↦
              record_inbound session_id out_id out_pairs in_pairs (degrade ++ reasons_of r) bytes
                store
        ]

    -- The answer to an UpstreamError.
    unfoldable pub record_failure :
        String → ℕ → List (Finding × Decision) → List String → String → Store h hex → Run
    unfolding append overall_action applied_action build_headers
    record_failure session_id out_id out_pairs degraded code store =
        let out_action = overall_action out_pairs allow in
        elim (append h hex q.subject.caller.request_tenant "request.failed" (failure_payload q code)
          none (w.now failure_evidence) (w.anchor_now failure_evidence) store.ledger) [
            | record_invalid ↦ stopped store ledger_record_invalid
            | appended row table ↦
                if not (w.accepts failure_evidence)
                then stopped store ledger_unavailable
                else record {
                  events = committed failure_evidence row ∷ [];
                  store = record store {
                    ledger = table;
                    requests =
                        update_request q.subject.request_id
                          (λ (r : RequestRow). record r { status = upstream_failed })
                          store.requests;
                  };
                  response =
                      bad_gateway
                        (build_headers q.subject session_id out_action
                          (applied_action out_action mode) out_id none degraded out_pairs [] none
                          w.upstream_name)
                        code out_id;
                }
          ]

    -- The upstream call and what follows it.
    unfoldable pub dispatch :
        String → ℕ → List (Finding × Decision) → List String → List ℕ → Store h hex → Run
    unfolding record_failure answer sorted_unique
    dispatch session_id out_id out_pairs degrade bytes store =
        after (dispatched bytes ∷ []) (elim (w.send bytes q.subject.upstream_model) [
          | send_failed code ↦
              record_failure session_id out_id out_pairs (sorted_unique degrade) code
                (w.meanwhile store)
          | replied body ↦ answer session_id out_id out_pairs degrade body (w.meanwhile store)
        ])

    unfoldable pub blocking : List (Finding × Decision) → Bool
    unfolding overall_action
    blocking out_pairs = is_block (overall_action out_pairs allow) && is_enforce mode

    unfoldable pub new_request : String → Action → List String → RequestRow
    unfolding applied_action
    new_request session_id out_action degraded = record {
      id = q.subject.request_id;
      session_id = session_id;
      tenant_id = q.subject.caller.request_tenant;
      upstream_model = q.subject.upstream_model;
      status = outbound_decided;
      decision_action = out_action;
      applied_action = applied_action out_action mode;
      mode = mode;
      org_policy_version = q.subject.policies.org.version;
      bu_policy_version = bu_policy_version q.subject.policies;
      degraded = degraded;
    }

    -- After the outbound evidence: the refusal of a block, or the dispatch.
    unfoldable pub proceed :
        String → ℕ → List (Finding × Decision) → List String → List ℕ → Store h hex → Run
    unfolding dispatch overall_action applied_action sorted_unique build_headers
    proceed session_id out_id out_pairs degrade bytes store =
        if blocking out_pairs
        then (let out_action = overall_action out_pairs allow in
            record {
              events = [];
              store = store;
              response =
                  blocked_outbound
                    (build_headers q.subject session_id out_action (applied_action out_action mode)
                      out_id none (sorted_unique degrade) out_pairs [] none w.upstream_name)
                    out_id;
            })
        else dispatch session_id out_id out_pairs degrade bytes store

    -- `session.add(req_row)`
    unfoldable pub with_request :
        String → List (Finding × Decision) → List String → Store h hex → Store h hex
    unfolding overall_action sorted_unique applied_action
    with_request session_id out_pairs degrade working = record working {
      requests =
          working.requests
          ++ new_request session_id (overall_action out_pairs allow) (sorted_unique degrade) ∷ [];
    }

    -- The outbound evidence. `working` is the session's uncommitted view, `store` what is durable. A
    -- request id that is known already fails the flush.
    unfoldable pub record_outbound :
        String → List (Finding × Decision) → List String → List ℕ → Store h hex → Store h hex → Run
    unfolding record_leg overall_action sorted_unique proceed
    record_outbound session_id out_pairs degrade bytes store working =
        if request_known q.subject.request_id working.requests
        then stopped store ledger_unavailable
        else let degraded = sorted_unique degrade in
          elim (record_leg h hex q.subject outbound out_pairs degraded (w.now outbound_evidence)
            (w.anchor_now outbound_evidence) (with_request session_id out_pairs degrade working)) [
              | unrecordable ↦ stopped store ledger_record_invalid
              | recorded row kept ↦
                  if not (w.accepts outbound_evidence)
                  then stopped store ledger_unavailable
                  else after (committed outbound_evidence row ∷ [])
                      (proceed session_id row.id out_pairs degrade bytes kept)
            ]

    -- The outbound leg, for a session that is known.
    unfoldable pub decide_outbound : SessionRow → List SessionRow → Store h hex → Run
    unfolding prepare record_outbound
    decide_outbound session sessions store =
        let out_pairs = decided outbound q.payload in
        elim (prepare (not (blocking out_pairs) && is_enforce mode) q.payload out_pairs) [
          | unverifiable spans ↦ stopped store (dispatch_verification_failed spans)
          | prepared r bytes ↦
              record_outbound session.id out_pairs (first_reasons ++ reasons_of r) bytes store
                (record store { sessions = sessions })
        ]

    -- `messages`
    unfoldable pub messages : Store h hex → Run
    unfolding session_row decide_outbound
    messages store =
        elim (session_row q.subject.caller q.channel q.session_header w.new_session_id w.session_now
          store.sessions) [
            | session_unknown ↦ stopped store unknown_session
            | session_actor_mismatch ↦ stopped store actor_mismatch
            | session_found session sessions ↦ decide_outbound session sessions store
          ]
