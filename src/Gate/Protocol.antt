-- ===== src/Gate/Protocol.antt =====
-- What the request path of Control-DB/zerotrace/gateway/routes_dataplane.py promises, without its
-- computations: which events follow which, and what the client may be told at the end.
use zero_trace.Prelude.{ℕ, String, List, [], ◌∷◌}
use zero_trace.Ledger.Hashing.{Hashing}
use zero_trace.Chains.Rows
use zero_trace.Gate.Headers.{Headers}
use zero_trace.Gate.Handler.{
  outbound_evidence, failure_evidence, inbound_evidence, Refusal, Response, delivered,
  blocked_outbound, blocked_inbound, bad_gateway, refused, Event, committed, dispatched,
}

-- Where a request stands, with the ids of its evidence and the bytes that were sent.
pub data Standing : Type 0 where
  received : Standing
  decided : ℕ → Standing
  awaiting : ℕ → List ℕ → Standing
  failed : ℕ → List ℕ → Standing
  settled : ℕ → ℕ → List ℕ → Standing

-- The conditions of the promise: which bytes may be sent, which may be delivered for the bytes that
-- were sent, and when a leg may be blocked.
pub record Terms : Type 1 where
  pub Sendable : List ℕ → Type 0
  pub Deliverable : List ℕ → List ℕ → Type 0
  pub OutboundBlock : Type 0
  pub InboundBlock : List ℕ → Type 0
  pub Failed : List ℕ → String → Type 0

module _ (h : Hashing) (hex : List h.Byte → String) (terms : Terms) where
  pub data Step : Standing → Event h hex → Standing → Type 0 where
    record_outbound :
        (row : Rows.Row h hex) → Step received (committed outbound_evidence row) (decided row.id)
    send : (i : ℕ) (b : List ℕ) → terms.Sendable b → Step (decided i) (dispatched b) (awaiting i b)
    record_failure :
        (i : ℕ) (b : List ℕ) (row : Rows.Row h hex)
        → Step (awaiting i b) (committed failure_evidence row) (failed i b)
    record_inbound :
        (i : ℕ) (b : List ℕ) (row : Rows.Row h hex)
        → Step (awaiting i b) (committed inbound_evidence row) (settled i row.id b)

  pub data Route : Standing → List (Event h hex) → Standing → Type 0 where
    stop : {s : Standing} → Route s [] s
    next :
        {s t u : Standing} {e : Event h hex} {es : List (Event h hex)}
        → Step s e t
        → Route t es u
        → Route s (e ∷ es) u

  -- The answer that a request may end with where it stands.
  pub data Closes : Standing → Response → Type 0 where
    refuse : (s : Standing) (why : Refusal) → Closes s (refused why)
    block_outbound :
        (i : ℕ) (hs : Headers) → terms.OutboundBlock → Closes (decided i) (blocked_outbound hs i)
    report_failure :
        (i : ℕ) (b : List ℕ) (hs : Headers) (code : String)
        → terms.Failed b code
        → Closes (failed i b) (bad_gateway hs code i)
    block_inbound :
        (i j : ℕ) (b : List ℕ) (hs : Headers)
        → terms.InboundBlock b
        → Closes (settled i j b) (blocked_inbound hs j)
    deliver :
        (i j : ℕ) (b bytes : List ℕ) (hs : Headers)
        → terms.Deliverable b bytes
        → Closes (settled i j b) (delivered hs bytes)

  -- The events lead from a standing to one that the answer closes.
  abbrev pub Follows : Standing → List (Event h hex) → Response → Type 0
  Follows s es r = (t : Standing) × Route s es t × Closes t r

  pub follow :
      {s t : Standing} {e : Event h hex} {es : List (Event h hex)} {r : Response}
      → Step s e t
      → Follows t es r
      → Follows s (e ∷ es) r
  follow st (u, path, closes) = (u, next st path, closes)

  pub refusing : (s : Standing) (why : Refusal) → Follows s [] (refused why)
  refusing s why = (s, stop, refuse s why)
