-- ===== src/Identity/Isolated.antt =====
-- Which rows of the table of actors Control-DB/zerotrace/identity/resolve.py lets act in a tenant.
use mathlib.Core.Path.{subst}
use mathlib.Core.Option.{some-injective}
use zero_trace.Prelude.{
  String, ◌≡◌, refl, sym, ap, ◌∙◌, ◌⊎◌, inl, inr, Bool, true, ◌&&◌, Option, none, some, List, [],
  ◌∷◌, str_eq, eq_iff, Bool-cases, Option-cases, Any, arith,
}
use zero_trace.Chains.Roots.{Parents}
use zero_trace.Identity.Callers.{Scope, tenant, organisation, ActorRow}
use zero_trace.Identity.Resolve.{
  same_scope, is_text, found, missing, broken, to_found, by_workload, by_subject, either_way,
  tenant_then_root, root_tenant_id,
}

-- The row is the tenant's own, or its root's with the scope of the organisation.
abbrev pub MayAct : Parents → List ActorRow → String → ActorRow → Type 0
MayAct ps rows t r =
    Any (λ x. x ≡ r) rows
    × (((r.tenant_id ≡ t) × (r.scope ≡ tenant))
        ⊎ ((root_tenant_id ps t ≡ some r.tenant_id) × (r.scope ≡ organisation)))

-- A row that a search of a tenant and a scope may answer with.
abbrev IsHit : List ActorRow → String → Scope → ActorRow → Type 0
IsHit rows t scope r = Any (λ x. x ≡ r) rows × ((r.tenant_id ≡ t) × (r.scope ≡ scope))

same_scope-eq : (s u : Scope) → same_scope s u ≡ true → s ≡ u
same_scope-eq tenant tenant h = refl
same_scope-eq organisation organisation h = refl
same_scope-eq tenant organisation h = absurd (ground arith)
same_scope-eq organisation tenant h = absurd (ground arith)

both : (a b c : Bool) → (a && (b && c)) ≡ true → (a ≡ true) × (c ≡ true)
both a b c h = ground (arith, h)

pub by_workload-IsHit :
    (rows : List ActorRow) (t v : String) (scope : Scope) (r : ActorRow)
    → by_workload rows t v scope ≡ some r
    → IsHit rows t scope r
unfolding by_workload
by_workload-IsHit [] t v scope r e = absurd (ground arith)
by_workload-IsHit (x ∷ rs) t v scope r e =
    elim (Bool-cases
      (str_eq x.tenant_id t && (is_text x.workload_id v && same_scope x.scope scope))) [
        | inl hit ↦
            let (mine, fits) = both _ _ _ hit in
            let same : x ≡ r = some-injective _ _ (rw (by_workload, hit) at e) in
            subst (λ y. IsHit (x ∷ rs) t scope y) same
              (inl refl, ((eq_iff x.tenant_id t).0 mine, same_scope-eq x.scope scope fits))
        | inr other ↦
            let (in_, rest) = by_workload-IsHit rs t v scope r (rw (by_workload, other) at e) in
            (inr in_, rest)
      ]

pub by_subject-IsHit :
    (rows : List ActorRow) (t v : String) (scope : Scope) (r : ActorRow)
    → by_subject rows t v scope ≡ some r
    → IsHit rows t scope r
unfolding by_subject
by_subject-IsHit [] t v scope r e = absurd (ground arith)
by_subject-IsHit (x ∷ rs) t v scope r e =
    elim (Bool-cases
      (str_eq x.tenant_id t && (is_text x.idp_subject v && same_scope x.scope scope))) [
        | inl hit ↦
            let (mine, fits) = both _ _ _ hit in
            let same : x ≡ r = some-injective _ _ (rw (by_subject, hit) at e) in
            subst (λ y. IsHit (x ∷ rs) t scope y) same
              (inl refl, ((eq_iff x.tenant_id t).0 mine, same_scope-eq x.scope scope fits))
        | inr other ↦
            let (in_, rest) = by_subject-IsHit rs t v scope r (rw (by_subject, other) at e) in
            (inr in_, rest)
      ]

found_injective : (r s : ActorRow) → found r ≡ found s → r ≡ s
found_injective r s e = cc

pub missing-found : {r : ActorRow} → missing ≡ found r → ⊥
missing-found e = cc

pub broken-found : {r : ActorRow} → broken ≡ found r → ⊥
broken-found e = cc

to_found-found : (o : Option ActorRow) (r : ActorRow) → to_found o ≡ found r → o ≡ some r
to_found-found none r e = absurd (missing-found e)
to_found-found (some s) r e = ap some (found_injective s r e)

module _ (sha256 : String → String) (ps : Parents) where
  pub either_way-IsHit :
      (rows : List ActorRow) (v t : String) (scope : Scope) (r : ActorRow)
      → either_way sha256 ps rows v t scope ≡ some r
      → IsHit rows t scope r
  unfolding either_way
  either_way-IsHit rows v t scope r e = elim (Option-cases (by_subject rows t v scope)) [
    | inl none_ ↦ by_workload-IsHit rows t v scope r (rw (either_way, none_) at e)
    | inr (s, hit) ↦ by_subject-IsHit rows t v scope r (hit ∙ rw (either_way, hit) at e)
  ]

  pub tenant_then_root-MayAct :
      (search : String → Scope → Option ActorRow) (rows : List ActorRow) (t : String) (r : ActorRow)
      → ((u : String) (scope : Scope) (x : ActorRow)
          → search u scope ≡ some x
          → IsHit rows u scope x)
      → tenant_then_root sha256 ps search t ≡ found r
      → MayAct ps rows t r
  unfolding tenant_then_root
  tenant_then_root-MayAct search rows t r hits e = elim (Option-cases (search t tenant)) [
    | inr (x, own) ↦
        let (in_, place) =
          hits t tenant r (own ∙ ap some (found_injective x r (rw (tenant_then_root, own) at e))) in
        (in_, inl place)
    | inl none_ ↦ elim (Option-cases (root_tenant_id ps t)) [
      | inl lost ↦ absurd (broken-found (rw (tenant_then_root, none_, lost) at e))
      | inr (root, known) ↦
          let hit =
            to_found-found (search root organisation) r
              (rw (tenant_then_root, none_, known) at e) in
          let (in_, (home, scope)) = hits root organisation r hit in
          (in_, inr (known ∙ ap some (sym home), scope))
    ]
  ]
