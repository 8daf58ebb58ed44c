-- ===== src/Gate/Kept.antt =====
-- That the evidence which the request path of Control-DB/zerotrace/gateway/routes_dataplane.py
-- commits stays in the ledger.
use mathlib.Core.Path.{subst}
use zero_trace.Prelude.{
  ℕ, String, ◌≡◌, refl, sym, ap, ◌∙◌, inl, inr, not, ◌&&◌, none, List, [], ◌∷◌, ◌++◌, Bool-cases,
  if_both, All, Any, Any-left, Any-right,
}
use zero_trace.Policy.{Leg, outbound, inbound, Finding}
use zero_trace.Policy.Decide.{Decision}
use zero_trace.Ledger.Hashing.{Hashing}
use zero_trace.Chains.Records.{Payload, sorted_unique}
use zero_trace.Chains.Rows
use zero_trace.Chains.Rows.{Table, append, appended}
use zero_trace.Chains.Shape.{append-Shape}
use zero_trace.Gate.Node.{Node}
use zero_trace.Gate.Evidence.{
  SessionRow, SessionFound, session_found, session_unknown, session_actor_mismatch, session_row,
  Store, recorded, record_leg, Subject, leg_payload,
}
use zero_trace.Gate.Handler.{
  Reply, send_failed, replied, World, Incoming, is_enforce, Run, Event, committed, dispatched,
  Stage, decided, blocking, prepare, record_inbound, answer, record_failure, dispatch, proceed,
  record_outbound, decide_outbound, messages, reasons_of, first_reasons, failure_payload,
  with_request, request_known, outbound_evidence, failure_evidence, inbound_evidence,
  unknown_session, actor_mismatch, stopped, after,
}
use zero_trace.Gate.Cases.{
  Recorded-cases, Appended-cases, Prepared-cases, unrecordable-recorded, recorded_injective,
}

module _ (h : Hashing) (hex : List h.Byte → String) where
  -- The row is in the store's ledger.
  abbrev pub Holds : Store h hex → Rows.Row h hex → Type 0
  Holds s row = Any (λ r. r ≡ row) s.ledger.rows

  -- The second store holds every ledger row of the first.
  abbrev pub Extends : Store h hex → Store h hex → Type 0
  Extends s t = (row : Rows.Row h hex) → Holds s row → Holds t row

  abbrev pub IsKept : Store h hex → Event h hex → Type 0
  IsKept s (committed stage row) = Holds s row
  IsKept s (dispatched bytes) = Unit

  abbrev Grows : Store h hex → Run h hex → Type 0
  Grows s run = Extends s run.store × All (IsKept run.store) run.events

  -- A commit of a row that the next store holds.
  committed-Grows :
      (s t : Store h hex) (stage : Stage) (row : Rows.Row h hex) (run : Run h hex)
      → Extends s t
      → Holds t row
      → Grows t run
      → Grows s (after h hex (committed stage row ∷ []) run)
  committed-Grows s t stage row run more mine (extends, kept) =
      (λ r m. extends r (more r m), (extends row mine, kept))

  dispatched-Grows :
      (s t : Store h hex) (bytes : List ℕ) (run : Run h hex)
      → Extends s t
      → Grows t run
      → Grows s (after h hex (dispatched bytes ∷ []) run)
  dispatched-Grows s t bytes run more (extends, kept) = (λ r m. extends r (more r m), (tt, kept))

  append-Holds :
      (t event : String) (p : Payload) (ts anchor_ts : String) (table table' : Table h hex)
      (row : Rows.Row h hex)
      → append h hex t event p none ts anchor_ts table ≡ appended row table'
      → ((r : Rows.Row h hex) → Any (λ x. x ≡ r) table.rows → Any (λ x. x ≡ r) table'.rows)
        × Any (λ x. x ≡ row) table'.rows
  append-Holds t event p ts anchor_ts table table' row e =
      let shape = append-Shape h hex t event p none ts anchor_ts table table' row e in
      let at = λ (r : Rows.Row h hex). λ (u : Table h hex). Any (λ x. x ≡ r) u.rows in
      (
        λ r m. subst (at r) (sym shape.table_is) (
            Any-left (λ x. x ≡ r) (table.rows ++ row ∷ []) _
              (Any-left (λ x. x ≡ r) table.rows (row ∷ []) m)),
        subst (at row) (sym shape.table_is) (
            Any-left (λ x. x ≡ row) (table.rows ++ row ∷ []) _
              (Any-right (λ x. x ≡ row) table.rows (row ∷ []) (inl refl))),
      )

  record_leg-Holds :
      (s : Subject) (leg : Leg) (pairs : List (Finding × Decision)) (degraded : List String)
      (ts anchor_ts : String) (store kept : Store h hex) (row : Rows.Row h hex)
      → record_leg h hex s leg pairs degraded ts anchor_ts store ≡ recorded row kept
      → Extends store kept × Holds kept row
  unfolding record_leg
  record_leg-Holds s leg pairs degraded ts anchor_ts store kept row e =
      elim (Appended-cases h hex (
        append h hex s.caller.request_tenant "request.decided" (leg_payload s leg pairs degraded)
          none ts anchor_ts store.ledger)) [
            | inl invalid ↦
                absurd (unrecordable-recorded h hex row kept (rw (record_leg, invalid) at e))
            | inr (r, table, found) ↦
                let (same_row, same_store) =
                  recorded_injective h hex _ _ _ _ (rw (record_leg, found) at e) in
                append-Holds s.caller.request_tenant "request.decided"
                  (leg_payload s leg pairs degraded) ts anchor_ts store.ledger kept.ledger row
                  (found
                    ∙ ap (λ x. appended x table) same_row
                    ∙ ap (λ (k : Store h hex). appended row k.ledger) same_store)
          ]

  module _ (w : World h hex) (q : Incoming) where
    record_inbound-Grows :
        (session_id : String) (i : ℕ) (out_pairs in_pairs : List (Finding × Decision))
        (degrade : List String) (bytes : List ℕ) (store : Store h hex)
        → Grows store (record_inbound h hex w q session_id i out_pairs in_pairs degrade bytes store)
    unfolding record_inbound
    record_inbound-Grows session_id i out_pairs in_pairs degrade bytes store =
        elim (Recorded-cases h hex (
          record_leg h hex q.subject inbound in_pairs (sorted_unique degrade)
            (w.now inbound_evidence) (w.anchor_now inbound_evidence) store)) [
              | inl e ↦ rw (record_inbound, e) (λ r m. m, tt)
              | inr (row, kept, e) ↦
                  let (more, mine) =
                    record_leg-Holds q.subject inbound in_pairs (sorted_unique degrade)
                      (w.now inbound_evidence) (w.anchor_now inbound_evidence) store kept row e in
                  elim (Bool-cases (w.accepts inbound_evidence)) [
                    | inr no_write ↦ rw (record_inbound, e, no_write) (λ r m. m, tt)
                    | inl write ↦ rw (record_inbound, e, write) (more, (mine, tt))
                  ]
            ]

    answer-Grows :
        (session_id : String) (i : ℕ) (out_pairs : List (Finding × Decision))
        (degrade : List String) (body : Node) (store : Store h hex)
        → Grows store (answer h hex w q session_id i out_pairs degrade body store)
    unfolding answer
    answer-Grows session_id i out_pairs degrade body store =
        let in_pairs = decided h hex w q inbound body in
        elim (Prepared-cases
          (prepare h hex w q (is_enforce q.subject.policies.mode) body in_pairs)) [
            | inl (spans, e) ↦ rw (answer, e) (λ r m. m, tt)
            | inr (r, bytes, e) ↦
                rw (answer, e)
                  (record_inbound-Grows session_id i out_pairs in_pairs
                    (degrade ++ reasons_of h hex w q r) bytes store)
          ]

    record_failure-Grows :
        (session_id : String) (i : ℕ) (out_pairs : List (Finding × Decision))
        (degraded : List String) (code : String) (store : Store h hex)
        → Grows store (record_failure h hex w q session_id i out_pairs degraded code store)
    unfolding record_failure
    record_failure-Grows session_id i out_pairs degraded code store =
        elim (Appended-cases h hex (
          append h hex q.subject.caller.request_tenant "request.failed" (failure_payload q code)
            none (w.now failure_evidence) (w.anchor_now failure_evidence) store.ledger)) [
              | inl e ↦ rw (record_failure, e) (λ r m. m, tt)
              | inr (row, table, e) ↦
                  let (more, mine) =
                    append-Holds q.subject.caller.request_tenant "request.failed"
                      (failure_payload q code) (w.now failure_evidence)
                      (w.anchor_now failure_evidence) store.ledger table row e in
                  elim (Bool-cases (w.accepts failure_evidence)) [
                    | inr no_write ↦ rw (record_failure, e, no_write) (λ r m. m, tt)
                    | inl write ↦ rw (record_failure, e, write) (more, (mine, tt))
                  ]
            ]

    dispatch-Grows :
        ((s : Store h hex) → Extends s (w.meanwhile s))
        → (session_id : String) (i : ℕ) (out_pairs : List (Finding × Decision))
          (degrade : List String) (bytes : List ℕ) (store : Store h hex)
        → Grows store (dispatch h hex w q session_id i out_pairs degrade bytes store)
    unfolding dispatch
    dispatch-Grows others session_id i out_pairs degrade bytes store =
        let then_ : Reply → Run h hex = λ x. elim x [
          | send_failed code ↦
              record_failure h hex w q session_id i out_pairs (sorted_unique degrade) code
                (w.meanwhile store)
          | replied body ↦ answer h hex w q session_id i out_pairs degrade body (w.meanwhile store)
        ] in
        dispatched-Grows store (w.meanwhile store) bytes
          (then_ (w.send bytes q.subject.upstream_model)) (others store)
          (elim (w.send bytes q.subject.upstream_model)
            as (λ x. Grows (w.meanwhile store) (then_ x)) [
              | send_failed code ↦
                  record_failure-Grows session_id i out_pairs (sorted_unique degrade) code
                    (w.meanwhile store)
              | replied body ↦ answer-Grows session_id i out_pairs degrade body (w.meanwhile store)
            ])

    proceed-Grows :
        ((s : Store h hex) → Extends s (w.meanwhile s))
        → (session_id : String) (i : ℕ) (out_pairs : List (Finding × Decision))
          (degrade : List String) (bytes : List ℕ) (store : Store h hex)
        → Grows store (proceed h hex w q session_id i out_pairs degrade bytes store)
    unfolding proceed
    proceed-Grows others session_id i out_pairs degrade bytes store =
        if_both (Grows store) (blocking h hex w q out_pairs) _ _ (λ blocks. (λ r m. m, tt))
          (λ passes. dispatch-Grows others session_id i out_pairs degrade bytes store)

    record_outbound-Grows :
        ((s : Store h hex) → Extends s (w.meanwhile s))
        → (session_id : String) (out_pairs : List (Finding × Decision)) (degrade : List String)
          (bytes : List ℕ) (store : Store h hex) (sessions : List SessionRow)
        → Grows store (
            record_outbound h hex w q session_id out_pairs degrade bytes store
              (record store { sessions = sessions }))
    unfolding record_outbound with_request
    record_outbound-Grows others session_id out_pairs degrade bytes store sessions =
        let working : Store h hex = record store { sessions = sessions } in
        elim (Bool-cases (request_known q.subject.request_id store.requests)) [
          | inl known ↦ rw (record_outbound, known) (λ r m. m, tt)
          | inr fresh ↦
              elim (Recorded-cases h hex (
                record_leg h hex q.subject outbound out_pairs (sorted_unique degrade)
                  (w.now outbound_evidence) (w.anchor_now outbound_evidence)
                  (with_request h hex w q session_id out_pairs degrade working))) [
                    | inl e ↦ rw (record_outbound, fresh, e) (λ r m. m, tt)
                    | inr (row, kept, e) ↦
                        let (more, mine) =
                          record_leg-Holds q.subject outbound out_pairs (sorted_unique degrade)
                            (w.now outbound_evidence) (w.anchor_now outbound_evidence)
                            (with_request h hex w q session_id out_pairs degrade working) kept row
                            e in
                        elim (Bool-cases (w.accepts outbound_evidence)) [
                          | inr no_write ↦ rw (record_outbound, fresh, e, no_write) (λ r m. m, tt)
                          | inl write ↦
                              rw (record_outbound, fresh, e, write)
                                (committed-Grows store kept outbound_evidence row
                                  (proceed h hex w q session_id row.id out_pairs degrade bytes kept)
                                  more mine
                                  (proceed-Grows others session_id row.id out_pairs degrade bytes
                                    kept))
                        ]
                  ]
        ]

    decide_outbound-Grows :
        ((s : Store h hex) → Extends s (w.meanwhile s))
        → (session : SessionRow) (sessions : List SessionRow) (store : Store h hex)
        → Grows store (decide_outbound h hex w q session sessions store)
    unfolding decide_outbound
    decide_outbound-Grows others session sessions store =
        let out_pairs = decided h hex w q outbound q.payload in
        elim (Prepared-cases (
          prepare h hex w q
            (not (blocking h hex w q out_pairs) && is_enforce q.subject.policies.mode) q.payload
            out_pairs)) [
              | inl (spans, e) ↦ rw (decide_outbound, e) (λ r m. m, tt)
              | inr (r, bytes, e) ↦
                  rw (decide_outbound, e)
                    (record_outbound-Grows others session.id out_pairs
                      (first_reasons h hex w q ++ reasons_of h hex w q r) bytes store sessions)
            ]

    -- Where what other requests commit meanwhile only adds to the ledger, every evidence row that a
    -- request commits is in the ledger when it ends, and so is every row that was there before.
    pub messages-Kept :
        ((s : Store h hex) → Extends s (w.meanwhile s))
        → (store : Store h hex)
        → Extends store (messages h hex w q store).store
          × All (IsKept (messages h hex w q store).store) (messages h hex w q store).events
    unfolding messages decide_outbound
    messages-Kept others store =
        elim (session_row q.subject.caller q.channel q.session_header w.new_session_id w.session_now
            store.sessions)
          as (λ (f : SessionFound). Grows store (elim f [
            | session_unknown ↦ stopped h hex store unknown_session
            | session_actor_mismatch ↦ stopped h hex store actor_mismatch
            | session_found session sessions ↦ decide_outbound h hex w q session sessions store
          ])) [
            | session_unknown ↦ (λ r m. m, tt)
            | session_actor_mismatch ↦ (λ r m. m, tt)
            | session_found session sessions ↦ decide_outbound-Grows others session sessions store
          ]
