-- ===== src/Gate/Outcomes.antt =====
-- What an answer of the request path of Control-DB/zerotrace/gateway/routes_dataplane.py implies,
-- by its promise.
use mathlib.Core.Path.{subst}
use zero_trace.Prelude.{ℕ, String, ◌≡◌, refl, ap, ◌∙◌, List, [], ◌∷◌, arith, map}
use zero_trace.Policy.{allow, Finding}
use zero_trace.Policy.Lattice.{stronger, strongest}
use zero_trace.Policy.Decide.{Decision, action_of, overall_action}
use zero_trace.Ledger.Hashing.{Hashing}
use zero_trace.Chains.Rows
use zero_trace.Gate.Headers.{Headers}
use zero_trace.Gate.Evidence.{Store, top, top_from, top_action, stronger_decision}
use zero_trace.Gate.Handler.{
  World, Incoming, delivered, Event, committed, dispatched, messages, outbound_evidence,
  inbound_evidence,
}
use zero_trace.Gate.Protocol
use zero_trace.Gate.Protocol.{
  Standing, received, decided, settled, Terms, Step, Route, Closes, Follows,
}
use zero_trace.Gate.Follows.{terms, PayloadDecodes, RepliesDecode, messages-Follows}

module _ (h : Hashing) (hex : List h.Byte → String) (p : Terms) where
  -- The course of a request whose answer is delivered.
  pub record Course (es : List (Event h hex)) (bytes : List ℕ) : Type 0 where
    pub out_row : Rows.Row h hex
    pub in_row : Rows.Row h hex
    pub sent : List ℕ
    pub events_are :
        es
        ≡ committed outbound_evidence out_row
          ∷ dispatched sent
          ∷ committed inbound_evidence in_row
          ∷ []
    pub may_send : p.Sendable sent
    pub may_deliver : p.Deliverable sent bytes

  pub Route-Course :
      {es : List (Event h hex)} {t : Standing} {hs : Headers} {bytes : List ℕ}
      → Route h hex p received es t
      → Closes h hex p t (delivered hs bytes)
      → Course es bytes
  Route-Course Protocol.stop closes = elim closes [ ]
  Route-Course (Protocol.next (Protocol.record_outbound row) Protocol.stop) closes = elim closes [ ]
  Route-Course
        (Protocol.next
          (Protocol.record_outbound row)
          (Protocol.next (Protocol.send i b ok) Protocol.stop))
        closes =
      elim closes [ ]
  Route-Course
        (Protocol.next (Protocol.record_outbound row) (
          Protocol.next
            (Protocol.send i b ok)
            (Protocol.next (Protocol.record_failure j c row') Protocol.stop)))
        closes =
      elim closes [ ]
  Route-Course
        (Protocol.next (Protocol.record_outbound row) (
          Protocol.next
            (Protocol.send i b ok)
            (Protocol.next (Protocol.record_failure j c row') (Protocol.next step path))))
        closes =
      elim step [ ]
  Route-Course
        (Protocol.next (Protocol.record_outbound row) (
          Protocol.next
            (Protocol.send i b ok)
            (Protocol.next (Protocol.record_inbound j c row') (Protocol.next step path))))
        closes =
      elim step [ ]
  Route-Course
        (Protocol.next (Protocol.record_outbound row) (
          Protocol.next
            (Protocol.send i b ok)
            (Protocol.next (Protocol.record_inbound j c row') Protocol.stop)))
        (Protocol.deliver k l d bytes hs deliverable) =
      record {
        out_row = row;
        in_row = row';
        sent = b;
        events_are = refl;
        may_send = ok;
        may_deliver = deliverable;
      }

module _ (h : Hashing) (hex : List h.Byte → String) (w : World h hex) (q : Incoming) where
  -- Where the payload and the replies, after their edits, decode from their bytes to themselves, an
  -- answer with a body is delivered only after the outbound evidence, one dispatch and the inbound
  -- evidence, in this order; neither leg was blocked; and the bytes that were sent and those that are
  -- delivered have every edit of their leg in place and no original left.
  pub delivered-Course :
      PayloadDecodes h hex w q
      → RepliesDecode h hex w q
      → (store : Store h hex) (hs : Headers) (bytes : List ℕ)
      → (messages h hex w q store).response ≡ delivered hs bytes
      → Course h hex (terms h hex w q) (messages h hex w q store).events bytes
  delivered-Course own decodes store hs bytes e =
      let (t, path, closes) = messages-Follows h hex w q own decodes store in
      Route-Course h hex (terms h hex w q) path (subst (Closes h hex (terms h hex w q) t) e closes)

action-stronger_decision :
    (d e : Decision) → (stronger_decision d e).action ≡ stronger d.action e.action
action-stronger_decision d e = ground arith

top_from-strongest :
    (d : Decision) (pairs : List (Finding × Decision))
    → (top_from d pairs).action ≡ strongest d.action (map action_of pairs)
unfolding strongest
top_from-strongest d [] = refl
top_from-strongest d ((f, e) ∷ pairs) =
    top_from-strongest (stronger_decision d e) pairs
    ∙ ap (λ a. strongest a (map action_of pairs)) (action-stronger_decision d e)

-- The decision whose action `_record_leg` records has the overall action of the leg.
pub top-overall_action :
    (pairs : List (Finding × Decision)) → top_action (top pairs) ≡ overall_action pairs allow
unfolding overall_action
top-overall_action [] = refl
top-overall_action ((f, d) ∷ pairs) = top_from-strongest d pairs
