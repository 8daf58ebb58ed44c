-- ===== src/Identity/Registered.antt =====
-- Whom Control-DB/zerotrace/identity/resolve.py answers with as a registered actor.
use zero_trace.Prelude.{
  String, ◌≡◌, refl, sym, ap, ◌∙◌, ◌⊎◌, inl, inr, true, false, Option, none, some, List, Bool-cases,
  Option-cases, arith,
}
use zero_trace.Chains.Roots.{Parents}
use zero_trace.Identity.Callers.{
  tenant, ActorRow, Actor, Source, mtls, session, interception_header, Request, Resolved, actor,
  failed, IdentityError, Settings,
}
use zero_trace.Identity.Resolve.{
  prefixed, fingerprint, Found, found, missing, broken, or_else, by_workload, by_subject,
  either_way, workload_rung, subject_rung, claim_rung, subject_of, from_row, hint_of,
  synthetic_unregistered, resolve_in, Selected, selected, not_selected, get_tenant, existing,
  resolve_tenant, resolve,
}
use zero_trace.Identity.Isolated.{
  MayAct, by_workload-IsHit, by_subject-IsHit, missing-found, either_way-IsHit,
  tenant_then_root-MayAct,
}

pub actor_injective :
    {a b : Actor} {rows more : List ActorRow} → actor a rows ≡ actor b more → a ≡ b
actor_injective e = cc

failed-actor :
    {why : IdentityError} {a : Actor} {rows : List ActorRow} → failed why ≡ actor a rows → ⊥
failed-actor e = cc

unknown : (a : Actor) → a.registered ≡ true → a.registered ≡ false → ⊥
unknown a h g = ground (arith, h, g)

-- The actor is that of a row which the source may answer for in the tenant.
abbrev pub IsActor : Parents → List ActorRow → String → Actor → Type 0
IsActor ps rows t a =
    (r : ActorRow) × ((source : Source) × (MayAct ps rows t r × (a ≡ from_row r source t)))

module _ (sha256 : String → String) (ps : Parents) where
  -- A rung answers with its row, or leaves the answer to the next.
  or_else-IsActor :
      (f : Found) (rows : List ActorRow) (source : Source) (t : String) (rest : Resolved)
      (a : Actor) (more : List ActorRow)
      → ((r : ActorRow) → f ≡ found r → MayAct ps rows t r)
      → (rest ≡ actor a more → IsActor ps rows t a)
      → or_else sha256 ps f rows source t rest ≡ actor a more
      → IsActor ps rows t a
  or_else-IsActor (found r) rows source t rest a more fits next e =
      (r, (source, (fits r refl, sym (actor_injective e))))
  or_else-IsActor missing rows source t rest a more fits next e = next e
  or_else-IsActor broken rows source t rest a more fits next e = absurd (failed-actor e)

  workload_rung-MayAct :
      (rows : List ActorRow) (t : String) (v : Option String) (r : ActorRow)
      → workload_rung sha256 ps rows t v ≡ found r
      → MayAct ps rows t r
  unfolding workload_rung
  workload_rung-MayAct rows t none r e = absurd (missing-found e)
  workload_rung-MayAct rows t (some v) r e =
      tenant_then_root-MayAct sha256 ps (λ u scope. by_workload rows u v scope) rows t r
        (λ u scope. by_workload-IsHit rows u v scope) e

  subject_rung-MayAct :
      (rows : List ActorRow) (t : String) (v : Option String) (r : ActorRow)
      → subject_rung sha256 ps rows t v ≡ found r
      → MayAct ps rows t r
  unfolding subject_rung
  subject_rung-MayAct rows t none r e = absurd (missing-found e)
  subject_rung-MayAct rows t (some v) r e =
      tenant_then_root-MayAct sha256 ps (λ u scope. by_subject rows u v scope) rows t r
        (λ u scope. by_subject-IsHit rows u v scope) e

  claim_rung-MayAct :
      (rows : List ActorRow) (t : String) (v : Option String) (r : ActorRow)
      → claim_rung sha256 ps rows t v ≡ found r
      → MayAct ps rows t r
  unfolding claim_rung
  claim_rung-MayAct rows t none r e = absurd (missing-found e)
  claim_rung-MayAct rows t (some v) r e =
      tenant_then_root-MayAct sha256 ps (either_way sha256 ps rows v) rows t r
        (either_way-IsHit sha256 ps rows v) e

  synthetic_unregistered-registered :
      (rows : List ActorRow) (t : String) (q : Request) (a : Actor) (more : List ActorRow)
      → synthetic_unregistered sha256 ps rows t q ≡ actor a more
      → a.registered ≡ false
  unfolding synthetic_unregistered
  synthetic_unregistered-registered rows t q a more e =
      elim (Option-cases (
        by_workload rows t (prefixed "unregistered:" (fingerprint sha256 t (hint_of sha256 ps q)))
          tenant)) [
            | inr (r, known) ↦
                sym (
                  ap (λ b. b.registered)
                    (actor_injective (rw (synthetic_unregistered, known) at e)))
            | inl new ↦
                sym
                  (ap (λ b. b.registered) (actor_injective (rw (synthetic_unregistered, new) at e)))
          ]

  resolve_in-IsActor :
      (rows : List ActorRow) (t : String) (q : Request) (a : Actor) (more : List ActorRow)
      → resolve_in sha256 ps rows t q ≡ actor a more
      → a.registered ≡ true
      → IsActor ps rows t a
  unfolding resolve_in
  resolve_in-IsActor rows t q a more e known =
      or_else-IsActor (workload_rung sha256 ps rows t q.spiffe) rows mtls t _ a more
        (workload_rung-MayAct rows t q.spiffe)
        (λ e1. elim (Option-cases (subject_of q.bearer q.cookie)) [
          | inl two ↦ absurd (failed-actor (rw two at e1))
          | inr (subject, one) ↦
              or_else-IsActor (subject_rung sha256 ps rows t subject) rows session t _ a more
                (subject_rung-MayAct rows t subject)
                (λ e2.
                  or_else-IsActor (claim_rung sha256 ps rows t q.claimed) rows interception_header t
                    _ a more (claim_rung-MayAct rows t q.claimed)
                    (λ e3.
                      absurd
                        (unknown a known (synthetic_unregistered-registered rows t q a more e3)))
                    e2)
                (rw one at e1)
        ])
        e

-- The tenant that is selected is there, and is the one that the header names if there is one.
abbrev pub IsSelected : Settings → Parents → Request → String → Type 0
IsSelected s ps q t =
    ((p : Option String) × (get_tenant ps t ≡ some p))
    × ((q.tenant_header ≡ some t)
        ⊎ ((q.tenant_header ≡ none) × ((s.is_dev ≡ true) × (t ≡ s.default_tenant))))

selected_injective : {t u : String} → selected t ≡ selected u → t ≡ u
selected_injective e = cc

not_selected-selected : {why : IdentityError} {t : String} → not_selected why ≡ selected t → ⊥
not_selected-selected e = cc

existing-selected :
    (ps : Parents) (t u : String)
    → existing ps t ≡ selected u
    → ((p : Option String) × (get_tenant ps u ≡ some p)) × (t ≡ u)
existing-selected ps t u e = elim (Option-cases (get_tenant ps t)) [
  | inl lost ↦ absurd (not_selected-selected (rw (existing, lost) at e))
  | inr (p, there) ↦
      let same : t ≡ u = selected_injective (rw (existing, there) at e) in
      ((p, ap (get_tenant ps) (sym same) ∙ there), same)
]

resolve_tenant-IsSelected :
    (s : Settings) (ps : Parents) (q : Request) (t : String)
    → resolve_tenant s ps q ≡ selected t
    → IsSelected s ps q t
unfolding resolve_tenant
resolve_tenant-IsSelected s ps q t e = elim (Option-cases q.tenant_header) [
  | inr (h, named) ↦
      let (there, same) = existing-selected ps h t (rw (resolve_tenant, named) at e) in
      (there, inl (named ∙ ap some same))
  | inl none_ ↦ elim (Bool-cases s.is_dev) [
    | inl dev ↦
        let (there, same) =
          existing-selected ps s.default_tenant t (rw (resolve_tenant, none_, dev) at e) in
        (there, inr (none_, (dev, sym same)))
    | inr other ↦ absurd (not_selected-selected (rw (resolve_tenant, none_, other) at e))
  ]
]

Selected-cases :
    (x : Selected)
    → ((t : String) × (x ≡ selected t)) ⊎ ((why : IdentityError) × (x ≡ not_selected why))
Selected-cases (selected t) = inl (t, refl)
Selected-cases (not_selected why) = inr (why, refl)

-- An actor who is answered as registered has a row of the tenant that the request selects, or a row
-- of the organisation's scope in the root of that tenant, and the tenant is there.
pub resolve-IsActor :
    (sha256 : String → String) (ps : Parents) (s : Settings) (rows : List ActorRow) (q : Request)
    (a : Actor) (more : List ActorRow)
    → resolve sha256 ps s rows q ≡ actor a more
    → a.registered ≡ true
    → (t : String) × (IsSelected s ps q t × IsActor ps rows t a)
unfolding resolve
resolve-IsActor sha256 ps s rows q a more e known = elim (Selected-cases (resolve_tenant s ps q)) [
  | inr (why, bad) ↦ absurd (failed-actor (rw (resolve, bad) at e))
  | inl (t, chosen) ↦ (
    t,
    (
      resolve_tenant-IsSelected s ps q t chosen,
      resolve_in-IsActor sha256 ps rows t q a more (rw (resolve, chosen) at e) known,
    ),
  )
]
