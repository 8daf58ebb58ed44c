-- ===== src/Store/Approved.antt =====
-- Two people stand behind every exception that Control-DB/zerotrace/policy/exceptions.py lets act.
use mathlib.Core.Path.{subst}
use mathlib.Core.Option.{some-injective}
use mathlib.Core.Bool.{false≢true}
use zero_trace.Prelude.{
  ℕ, ◌<◌, String, ◌≡◌, ◌≢◌, refl, sym, ap, ◌∙◌, ◌⊎◌, inl, inr, Bool, true, ◌&&◌, Option, none, some,
  List, [], ◌∷◌, arith, ◌==◌, str_eq, eq_iff, All, All-join, Any, Bool-cases, ltb→lt,
}
use zero_trace.Store.Exceptions.{
  PolicyException, for_actor, is_approved, is_active, active_classes, request_exception, Approval,
  approved, not_found, own_request, approve,
}

-- Nobody has approved what they requested.
abbrev pub TwoPeople : List PolicyException → Type 0
TwoPeople es = All (λ (e : PolicyException). e.approved_by ≢ some e.requested_by) es

not_found-approved : {es : List PolicyException} → not_found ≡ approved es → ⊥
not_found-approved e = cc

own_request-approved : {es : List PolicyException} → own_request ≡ approved es → ⊥
own_request-approved e = cc

-- The exception acts for the actor, by the approval of somebody who did not request it, before it
-- expires.
abbrev pub ActsFor : ℕ → String → String → String → PolicyException → Type 0
ActsFor now tenant actor c e =
    (e.entity_class ≡ c)
    × ((e.tenant_id ≡ tenant)
        × (((e.actor_id ≡ none) ⊎ (e.actor_id ≡ some actor))
            × ((by : String) × ((e.approved_by ≡ some by)
                  × ((by ≢ e.requested_by) × (now < e.expires_at))))))

for_actor-cases :
    (actor : String) (o : Option String) → for_actor actor o ≡ true → (o ≡ none) ⊎ (o ≡ some actor)
for_actor-cases actor none h = inl refl
for_actor-cases actor (some a) h = inr (ap some ((eq_iff a actor).0 h))

is_approved-some : (o : Option String) → is_approved o ≡ true → (by : String) × (o ≡ some by)
is_approved-some none h = absurd (false≢true h)
is_approved-some (some by) h = (by, refl)

both : (a b : Bool) → (a && b) ≡ true → (a ≡ true) × (b ≡ true)
both a b h = ground (arith, h)

is_active-ActsFor :
    (now : ℕ) (tenant actor : String) (e : PolicyException)
    → e.approved_by ≢ some e.requested_by
    → is_active now tenant actor e ≡ true
    → ActsFor now tenant actor e.entity_class e
is_active-ActsFor now tenant actor e other h =
    let (mine, h1) = both (str_eq e.tenant_id tenant) _ h in
    let (who, h2) = both (for_actor actor e.actor_id) _ h1 in
    let (approval, unexpired) = both (is_approved e.approved_by) _ h2 in
    let (by, found) = is_approved-some e.approved_by approval in
    (
      refl,
      (
        (eq_iff e.tenant_id tenant).0 mine,
        (
          for_actor-cases actor e.actor_id who,
          (by, (found, (λ same. other (found ∙ ap some same), ltb→lt now e.expires_at unexpired))),
        ),
      ),
    )

active_classes-ActsFor :
    (now : ℕ) (tenant actor c : String) (es : List PolicyException)
    → TwoPeople es
    → Any (λ x. x ≡ c) (active_classes now tenant actor es)
    → Any (ActsFor now tenant actor c) es
unfolding active_classes
active_classes-ActsFor now tenant actor c [] two m = m
active_classes-ActsFor now tenant actor c (e ∷ es) (two, rest) m =
    elim (Bool-cases (is_active now tenant actor e)) [
      | inr off ↦
          inr (active_classes-ActsFor now tenant actor c es rest (rw (active_classes, off) at m))
      | inl on ↦ elim (rw (active_classes, on) at m) [
        | inl same ↦ inl (
            subst (λ x. ActsFor now tenant actor x e) same
              (is_active-ActsFor now tenant actor e two on))
        | inr later ↦ inr (active_classes-ActsFor now tenant actor c es rest later)
      ]
    ]

-- What the module does to the table.
pub data Step : List PolicyException → List PolicyException → Type 0 where
  request :
      (id : ℕ) (tenant : String) (actor : Option String) (c reason requested_by : String)
      (expires_at : ℕ) (ledger_id : Option ℕ) (es : List PolicyException)
      → Step es (request_exception id tenant actor c reason requested_by expires_at ledger_id es)
  approval :
      (id : ℕ) (by : String) (es es' : List PolicyException)
      → approve id by es ≡ approved es'
      → Step es es'

pub data Reach : List PolicyException → Type 0 where
  start : Reach []
  next : {es es' : List PolicyException} → Reach es → Step es es' → Reach es'

Approval-cases :
    (a : Approval)
    → (a ≡ not_found) ⊎ (a ≡ own_request) ⊎ ((es : List PolicyException) × (a ≡ approved es))
Approval-cases not_found = inl refl
Approval-cases own_request = inr (inl refl)
Approval-cases (approved es) = inr (inr (es, refl))

approved_injective : (es es' : List PolicyException) → approved es ≡ approved es' → es ≡ es'
approved_injective es es' e = cc

approve-TwoPeople :
    (id : ℕ) (by : String) (es es' : List PolicyException)
    → TwoPeople es
    → approve id by es ≡ approved es'
    → TwoPeople es'
unfolding approve
approve-TwoPeople id by [] es' two e = absurd (ground arith)
approve-TwoPeople id by (x ∷ xs) es' (two, rest) e = elim (Bool-cases (x.id == id)) [
  | inl this ↦ elim (Bool-cases (str_eq x.requested_by by)) [
    | inl own ↦ absurd (own_request-approved (rw (approve, this, own) at e))
    | inr other ↦ subst TwoPeople (approved_injective _ es' (rw (approve, this, other) at e)) (
      λ same. false≢true (sym other ∙ (eq_iff x.requested_by by).1 (sym (some-injective _ _ same))),
      rest,
    )
  ]
  | inr that ↦ elim (Approval-cases (approve id by xs)) [
    | inl lost ↦ absurd (not_found-approved (rw (approve, that, lost) at e))
    | inr (inl own) ↦ absurd (own_request-approved (rw (approve, that, own) at e))
    | inr (inr (ys, found)) ↦
        subst TwoPeople (approved_injective _ es' (rw (approve, that, found) at e))
          (two, approve-TwoPeople id by xs ys rest found)
  ]
]

Step-TwoPeople : {es es' : List PolicyException} → Step es es' → TwoPeople es → TwoPeople es'
unfolding request_exception
Step-TwoPeople (request id tenant actor c reason requested_by expires_at ledger_id es) two =
    All-join (λ (e : PolicyException). e.approved_by ≢ some e.requested_by) es _ two (λ e. cc, tt)
Step-TwoPeople (approval id by es es' e) two = approve-TwoPeople id by es es' two e

Reach-TwoPeople : {es : List PolicyException} → Reach es → TwoPeople es
Reach-TwoPeople start = tt
Reach-TwoPeople (next r s) = Step-TwoPeople s (Reach-TwoPeople r)

-- In a table that requests and approvals have made, every class that an actor has an active exception
-- for comes from one for the actor or the whole tenant, which somebody other than its requester has
-- approved and which has not expired.
pub active_classes-TwoPeople :
    (now : ℕ) (tenant actor c : String) (es : List PolicyException)
    → Reach es
    → Any (λ x. x ≡ c) (active_classes now tenant actor es)
    → Any (ActsFor now tenant actor c) es
active_classes-TwoPeople now tenant actor c es r m =
    active_classes-ActsFor now tenant actor c es (Reach-TwoPeople r) m
