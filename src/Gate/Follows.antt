-- ===== src/Gate/Follows.antt =====
-- That `messages` of Control-DB/zerotrace/gateway/routes_dataplane.py keeps its promise.
use mathlib.Core.Path.{subst}
use zero_trace.Prelude.{
  ℕ, String, ◌≡◌, refl, inl, inr, Bool, true, false, not, ◌&&◌, none, some, List, [], ◌++◌,
  Bool-cases, if_both, if◌then◌else◌,
}
use zero_trace.Policy.{allow, outbound, inbound, Finding}
use zero_trace.Policy.Decide.{Decision, overall_action}
use zero_trace.Ledger.Hashing.{Hashing}
use zero_trace.Chains.Records.{sorted_unique}
use zero_trace.Chains.Rows.{append}
use zero_trace.Gate.Node.{Node, walk_strings}
use zero_trace.Gate.Masking.{Mode, shadow, enforce, RedactionResult, apply, verify_dispatch}
use zero_trace.Gate.Verified.{InPlace, NoneSurvives, verify_dispatch-InPlace}
use zero_trace.Gate.Evidence.{
  SessionRow, SessionFound, session_found, session_unknown, session_actor_mismatch, session_row,
  Store, record_leg,
}
use zero_trace.Gate.Handler
use zero_trace.Gate.Handler.{
  Reply, send_failed, replied, World, Incoming, Prepared, prepared, unverifiable, is_block,
  is_enforce, untouched, Run, Event, committed, dispatched, decided, blocking, check_body, prepare,
  record_inbound, answer, record_failure, dispatch, proceed, record_outbound, decide_outbound,
  messages, reasons_of, first_reasons, failure_payload, with_request, request_known,
  outbound_evidence, failure_evidence, inbound_evidence, ledger_unavailable, ledger_record_invalid,
  unknown_session, actor_mismatch, dispatch_verification_failed,
}
use zero_trace.Gate.Cases.{Recorded-cases, Appended-cases, Prepared-cases, Reply-cases, List-cases}
use zero_trace.Gate.Protocol
use zero_trace.Gate.Protocol.{
  Standing, received, awaiting, failed, settled, Terms, Follows, follow, refusing,
}

acted :
    (py_str : Node → List ℕ) (m : Mode) (body : Node) (pairs : List (Finding × Decision))
    → (if is_enforce m then apply py_str m body pairs else untouched body)
      ≡ apply py_str m body pairs
unfolding apply
acted py_str shadow body pairs = refl
acted py_str enforce body pairs = refl

unverifiable-prepared :
    (spans : List String) (r : RedactionResult) (bytes : List ℕ)
    → unverifiable spans ≡ prepared r bytes
    → ⊥
unverifiable-prepared spans r bytes e = cc

prepared-bytes : (r s : RedactionResult) (b c : List ℕ) → prepared r b ≡ prepared s c → c ≡ b
prepared-bytes r s b c e = cc

module _ (h : Hashing) (hex : List h.Byte → String) (w : World h hex) (q : Incoming) where
  abbrev model : String
  model = q.subject.upstream_model

  abbrev mode : Mode
  mode = q.subject.policies.mode

  -- The bytes are the body after its edits, all of which stand in it, and none of their originals
  -- does. In shadow mode there are no edits.
  abbrev pub Verified : Node → List (Finding × Decision) → List ℕ → Type 0
  Verified body pairs bytes =
      let r = apply w.py_str mode body pairs in
      (r.misses ≡ [])
      × ((bytes ≡ w.serialize r.payload)
          × (InPlace r.payload r.edits × NoneSurvives (walk_strings r.payload) r.edits))

  -- What is serialized decodes to the body again.
  abbrev pub Decodable : Node → Type 0
  Decodable n = w.loads (w.serialize n) ≡ some n

  abbrev out_pairs : List (Finding × Decision)
  out_pairs = decided h hex w q outbound q.payload

  abbrev in_pairs : Node → List (Finding × Decision)
  in_pairs body = decided h hex w q inbound body

  -- The payload and every reply decode to themselves after their edits.
  abbrev pub PayloadDecodes : Type 0
  PayloadDecodes = Decodable (apply w.py_str mode q.payload out_pairs).payload

  abbrev pub RepliesDecode : Type 0
  RepliesDecode =
      (b : List ℕ) (body : Node)
      → w.send b model ≡ replied body
      → Decodable (apply w.py_str mode body (in_pairs body)).payload

  abbrev pub blocking_reply : Node → Bool
  blocking_reply body = is_block (overall_action (in_pairs body) allow) && is_enforce mode

  abbrev pub terms : Terms
  terms = record {
    Sendable = λ b. (blocking h hex w q out_pairs ≡ false) × Verified q.payload out_pairs b;
    Deliverable = λ b bytes.
        (body : Node) × (w.send b model ≡ replied body)
        × ((blocking_reply body ≡ false) × Verified body (in_pairs body) bytes);
    OutboundBlock = blocking h hex w q out_pairs ≡ true;
    InboundBlock =
        λ b. (body : Node) × (w.send b model ≡ replied body) × (blocking_reply body ≡ true);
    Failed = λ b code. w.send b model ≡ send_failed code;
  }

  abbrev Keeps : Standing → Run h hex → Type 0
  Keeps s run = Follows h hex terms s run.events run.response

  check_body-prepared :
      (a r : RedactionResult) (bytes : List ℕ)
      → Decodable a.payload
      → check_body h hex w q a ≡ prepared r bytes
      → (a.misses ≡ [])
        × ((bytes ≡ w.serialize a.payload)
            × (InPlace a.payload a.edits × NoneSurvives (walk_strings a.payload) a.edits))
  unfolding check_body
  check_body-prepared a r bytes decodes e = elim (List-cases a.misses) [
    | inr (x, xs, missing) ↦
        absurd (unverifiable-prepared _ r bytes (rw (check_body, missing) at e))
    | inl none_missing ↦
        elim (List-cases (verify_dispatch w.loads (w.serialize a.payload) a.edits)) [
          | inr (x, xs, failing) ↦
              absurd (unverifiable-prepared _ r bytes (rw (check_body, none_missing, failing) at e))
          | inl clean ↦ (
            none_missing,
            (
              prepared-bytes _ _ _ _ (rw (check_body, none_missing, clean) at e),
              (verify_dispatch-InPlace w.loads _ a.payload a.edits decodes).0 clean,
            ),
          )
        ]
  ]

  prepare-Verified :
      (body : Node) (pairs : List (Finding × Decision)) (r : RedactionResult) (bytes : List ℕ)
      → Decodable (apply w.py_str mode body pairs).payload
      → prepare h hex w q (is_enforce mode) body pairs ≡ prepared r bytes
      → Verified body pairs bytes
  unfolding prepare
  prepare-Verified body pairs r bytes decodes e =
      check_body-prepared (apply w.py_str mode body pairs) r bytes decodes
        (subst (λ x. check_body h hex w q x ≡ prepared r bytes) (acted w.py_str mode body pairs) e)

  record_inbound-Keeps :
      (session_id : String) (i : ℕ) (b bytes : List ℕ) (body : Node) (degrade : List String)
      (store : Store h hex)
      → w.send b model ≡ replied body
      → Verified body (in_pairs body) bytes
      → Keeps
          (awaiting i b)
          (record_inbound h hex w q session_id i out_pairs (in_pairs body) degrade bytes store)
  unfolding record_inbound
  record_inbound-Keeps session_id i b bytes body degrade store sent ok =
      elim (Recorded-cases h hex (
        record_leg h hex q.subject inbound (in_pairs body) (sorted_unique degrade)
          (w.now inbound_evidence) (w.anchor_now inbound_evidence) store)) [
            | inl e ↦ rw (record_inbound, e) (refusing h hex terms _ _)
            | inr (row, kept, e) ↦ elim (Bool-cases (w.accepts inbound_evidence)) [
              | inr no_write ↦ rw (record_inbound, e, no_write) (refusing h hex terms _ _)
              | inl write ↦ elim (Bool-cases (blocking_reply body)) [
                | inl blocks ↦
                    rw (record_inbound, e, write, blocks)
                      (follow h hex terms (Protocol.record_inbound i b row) (
                        _,
                        Protocol.stop,
                        Protocol.block_inbound i row.id b _ (body, sent, blocks),
                      ))
                | inr passes ↦
                    rw (record_inbound, e, write, passes)
                      (follow h hex terms (Protocol.record_inbound i b row) (
                        _,
                        Protocol.stop,
                        Protocol.deliver i row.id b bytes _ (body, sent, (passes, ok)),
                      ))
              ]
            ]
          ]

  answer-Keeps :
      RepliesDecode
      → (session_id : String) (i : ℕ) (b : List ℕ) (body : Node) (degrade : List String)
        (store : Store h hex)
      → w.send b model ≡ replied body
      → Keeps (awaiting i b) (answer h hex w q session_id i out_pairs degrade body store)
  unfolding answer
  answer-Keeps decodes session_id i b body degrade store sent =
      elim (Prepared-cases (prepare h hex w q (is_enforce mode) body (in_pairs body))) [
        | inl (spans, e) ↦ rw (answer, e) (refusing h hex terms _ _)
        | inr (r, bytes, e) ↦
            rw (answer, e)
              (record_inbound-Keeps session_id i b bytes body (degrade ++ reasons_of h hex w q r)
                store sent (prepare-Verified body (in_pairs body) r bytes (decodes b body sent) e))
      ]

  record_failure-Keeps :
      (session_id : String) (i : ℕ) (b : List ℕ) (degraded : List String) (code : String)
      (store : Store h hex)
      → w.send b model ≡ send_failed code
      → Keeps (awaiting i b) (record_failure h hex w q session_id i out_pairs degraded code store)
  unfolding record_failure
  record_failure-Keeps session_id i b degraded code store sent =
      elim (Appended-cases h hex (
        append h hex q.subject.caller.request_tenant "request.failed" (failure_payload q code) none
          (w.now failure_evidence) (w.anchor_now failure_evidence) store.ledger)) [
            | inl e ↦ rw (record_failure, e) (refusing h hex terms _ _)
            | inr (row, table, e) ↦ elim (Bool-cases (w.accepts failure_evidence)) [
              | inr no_write ↦ rw (record_failure, e, no_write) (refusing h hex terms _ _)
              | inl write ↦
                  rw (record_failure, e, write)
                    (follow h hex terms (Protocol.record_failure i b row)
                      (_, Protocol.stop, Protocol.report_failure i b _ code sent))
            ]
          ]

  dispatch-Keeps :
      RepliesDecode
      → (session_id : String) (i : ℕ) (b : List ℕ) (degrade : List String) (store : Store h hex)
      → blocking h hex w q out_pairs ≡ false
      → Verified q.payload out_pairs b
      → Keeps (Standing.decided i) (dispatch h hex w q session_id i out_pairs degrade b store)
  unfolding dispatch
  dispatch-Keeps decodes session_id i b degrade store passes ok =
      follow h hex terms (Protocol.send i b (passes, ok)) (elim (Reply-cases (w.send b model)) [
        | inl (code, e) ↦ rw e (record_failure-Keeps session_id i b _ code _ e)
        | inr (body, e) ↦ rw e (answer-Keeps decodes session_id i b body degrade _ e)
      ])

  proceed-Keeps :
      RepliesDecode
      → (session_id : String) (i : ℕ) (b : List ℕ) (degrade : List String) (store : Store h hex)
      → (blocking h hex w q out_pairs ≡ false → Verified q.payload out_pairs b)
      → Keeps (Standing.decided i) (proceed h hex w q session_id i out_pairs degrade b store)
  unfolding proceed
  proceed-Keeps decodes session_id i b degrade store ok =
      if_both (Keeps (Standing.decided i)) (blocking h hex w q out_pairs) _ _
        (λ blocks. (_, Protocol.stop, Protocol.block_outbound i _ blocks))
        (λ passes. dispatch-Keeps decodes session_id i b degrade store passes (ok passes))

  record_outbound-Keeps :
      RepliesDecode
      → (session_id : String) (b : List ℕ) (degrade : List String) (store working : Store h hex)
      → (blocking h hex w q out_pairs ≡ false → Verified q.payload out_pairs b)
      → Keeps received (record_outbound h hex w q session_id out_pairs degrade b store working)
  unfolding record_outbound
  record_outbound-Keeps decodes session_id b degrade store working ok =
      elim (Bool-cases (request_known q.subject.request_id working.requests)) [
        | inl known ↦ rw (record_outbound, known) (refusing h hex terms _ _)
        | inr fresh ↦
            elim (Recorded-cases h hex (
              record_leg h hex q.subject outbound out_pairs (sorted_unique degrade)
                (w.now outbound_evidence) (w.anchor_now outbound_evidence)
                (with_request h hex w q session_id out_pairs degrade working))) [
                  | inl e ↦ rw (record_outbound, fresh, e) (refusing h hex terms _ _)
                  | inr (row, kept, e) ↦ elim (Bool-cases (w.accepts outbound_evidence)) [
                    | inr no_write ↦
                        rw (record_outbound, fresh, e, no_write) (refusing h hex terms _ _)
                    | inl write ↦
                        rw (record_outbound, fresh, e, write)
                          (follow h hex terms (Protocol.record_outbound row)
                            (proceed-Keeps decodes session_id row.id b degrade kept ok))
                  ]
                ]
      ]

  decide_outbound-Keeps :
      PayloadDecodes
      → RepliesDecode
      → (session : SessionRow) (sessions : List SessionRow) (store : Store h hex)
      → Keeps received (decide_outbound h hex w q session sessions store)
  unfolding decide_outbound
  decide_outbound-Keeps own decodes session sessions store =
      elim (Prepared-cases (
        prepare h hex w q (not (blocking h hex w q out_pairs) && is_enforce mode) q.payload
          out_pairs)) [
            | inl (spans, e) ↦ rw (decide_outbound, e) (refusing h hex terms _ _)
            | inr (r, bytes, e) ↦
                rw (decide_outbound, e)
                  (record_outbound-Keeps decodes session.id bytes
                    (first_reasons h hex w q ++ reasons_of h hex w q r) store
                    (record store { sessions = sessions })
                    (λ passes. prepare-Verified q.payload out_pairs r bytes own (rw passes at e)))
          ]

  -- Where the payload and the replies, after their edits, decode from their bytes to themselves, a
  -- request keeps the promise: the outbound evidence is
  -- committed first; bytes are sent only after it, only if the outbound leg is not blocked, and only
  -- if they are the payload with every edit in place and no original left; the evidence of the reply
  -- or of its failure is committed before the answer; what is delivered is the reply, not blocked,
  -- with every edit in place and no original left; and the ids in the answers are the evidence's.
  pub messages-Follows :
      PayloadDecodes
      → RepliesDecode
      → (store : Store h hex)
      → Follows h hex terms received
          (messages h hex w q store).events
          (messages h hex w q store).response
  unfolding messages
  messages-Follows own decodes store =
      elim (session_row q.subject.caller q.channel q.session_header w.new_session_id w.session_now
          store.sessions)
        as (λ (f : SessionFound). Keeps received (elim f [
          | session_unknown ↦ Handler.stopped h hex store unknown_session
          | session_actor_mismatch ↦ Handler.stopped h hex store actor_mismatch
          | session_found session sessions ↦ decide_outbound h hex w q session sessions store
        ])) [
          | session_unknown ↦ refusing h hex terms _ _
          | session_actor_mismatch ↦ refusing h hex terms _ _
          | session_found session sessions ↦
              decide_outbound-Keeps own decodes session sessions store
        ]
