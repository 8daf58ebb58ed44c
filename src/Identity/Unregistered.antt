-- ===== src/Identity/Unregistered.antt =====
-- What becomes of the row that Control-DB/zerotrace/identity/resolve.py stores for an unregistered
-- caller.
use mathlib.Core.Option.{some-ne-none}
use zero_trace.Prelude.{
  String, ◌≡◌, refl, sym, ap, ◌∙◌, inl, inr, true, false, ◌&&◌, none, some, List, [], ◌∷◌, ◌++◌,
  str_eq, str_eq_refl, Bool-cases, Option-cases,
}
use zero_trace.Chains.Roots.{Parents}
use zero_trace.Identity.Callers.{
  tenant, ActorRow, Actor, interception_header, Request, absent, actor,
}
use zero_trace.Identity.Resolve.{
  prefixed, fingerprint, same_scope, is_text, by_workload, by_subject, either_way, tenant_then_root,
  workload_rung, subject_rung, claim_rung, subject_of, from_row, unregistered_actor, hint_of,
  synthetic_row, synthetic_unregistered, resolve_in,
}
use zero_trace.Identity.Registered.{actor_injective}

rows_injective :
    {a b : Actor} {rows more : List ActorRow} → actor a rows ≡ actor b more → rows ≡ more
rows_injective e = cc

-- A row at the end is found by its workload, where no row before it is.
by_workload-append :
    (rows : List ActorRow) (t v : String) (r : ActorRow)
    → by_workload rows t v tenant ≡ none
    → by_workload (r ∷ []) t v tenant ≡ some r
    → by_workload (rows ++ r ∷ []) t v tenant ≡ some r
unfolding by_workload
by_workload-append [] t v r e h = h
by_workload-append (x ∷ rs) t v r e h =
    elim (Bool-cases
      (str_eq x.tenant_id t && (is_text x.workload_id v && same_scope x.scope tenant))) [
        | inl hit ↦ absurd (some-ne-none x (rw (by_workload, hit) at e))
        | inr other ↦
            rw (by_workload, other) (by_workload-append rs t v r (rw (by_workload, other) at e) h)
      ]

module _ (sha256 : String → String) (ps : Parents) where
  by_workload-synthetic_row :
      (t f : String)
      → by_workload (synthetic_row sha256 ps t f ∷ []) t (prefixed "unregistered:" f) tenant
        ≡ some (synthetic_row sha256 ps t f)
  unfolding by_workload
  by_workload-synthetic_row t f = rw (str_eq_refl t, str_eq_refl (prefixed "unregistered:" f))

  -- The row of the caller is in the table afterwards, and the answer is its actor.
  synthetic_unregistered-stored :
      (rows : List ActorRow) (t : String) (q : Request) (a : Actor) (more : List ActorRow)
      → synthetic_unregistered sha256 ps rows t q ≡ actor a more
      → (r : ActorRow) × ((by_workload more t
              (prefixed "unregistered:" (fingerprint sha256 t (hint_of sha256 ps q)))
              tenant
            ≡ some r)
          × (a ≡ unregistered_actor sha256 ps r t))
  unfolding synthetic_unregistered
  synthetic_unregistered-stored rows t q a more e =
      let f = fingerprint sha256 t (hint_of sha256 ps q) in
      let v = prefixed "unregistered:" f in
      elim (Option-cases (by_workload rows t v tenant)) [
        | inr (r, known) ↦
            let same : actor (unregistered_actor sha256 ps r t) rows ≡ actor a more =
              rw (synthetic_unregistered, known) at e in
            (
              r,
              (
                ap (λ l. by_workload l t v tenant) (sym (rows_injective same)) ∙ known,
                sym (actor_injective same),
              ),
            )
        | inl new ↦
            let r = synthetic_row sha256 ps t f in
            let same : actor (unregistered_actor sha256 ps r t) (rows ++ r ∷ []) ≡ actor a more =
              rw (synthetic_unregistered, new) at e in
            (
              r,
              (
                ap (λ l. by_workload l t v tenant) (sym (rows_injective same))
                    ∙ by_workload-append rows t v r new (by_workload-synthetic_row t f),
                sym (actor_injective same),
              ),
            )
      ]

  -- The one thing that the request presents is the claim.
  abbrev pub IsClaim : Request → String → Type 0
  IsClaim q v =
      (q.spiffe ≡ none) × ((q.bearer ≡ absent) × ((q.cookie ≡ absent) × (q.claimed ≡ some v)))

  -- When an unregistered caller has been answered, a request whose one credential is the claim of
  -- the caller's stored workload, which is no actor's subject in the tenant, is answered as a
  -- registered actor with the caller's id.
  pub resolve_in-promoted :
      (rows : List ActorRow) (t : String) (q claim : Request) (a : Actor) (more : List ActorRow)
      (v : String)
      → synthetic_unregistered sha256 ps rows t q ≡ actor a more
      → v ≡ prefixed "unregistered:" (fingerprint sha256 t (hint_of sha256 ps q))
      → by_subject more t v tenant ≡ none
      → IsClaim claim v
      → (b : Actor) × ((resolve_in sha256 ps more t claim ≡ actor b more)
          × ((b.registered ≡ true) × ((b.id ≡ a.id) × (a.registered ≡ false))))
  unfolding resolve_in workload_rung subject_rung claim_rung subject_of tenant_then_root either_way
      from_row
  resolve_in-promoted rows t q claim a more v e is no_subject
        (spiffe, (bearer, (cookie, claimed))) =
      let (r, (known, answer)) = synthetic_unregistered-stored rows t q a more e in
      let found_ : by_workload more t v tenant ≡ some r =
        ap (λ u. by_workload more t u tenant) is ∙ known in
      (
        from_row r interception_header t,
        (
          rw (
            resolve_in, spiffe, bearer, cookie, claimed, claim_rung, tenant_then_root, either_way,
            no_subject, found_,
          ),
          (refl, (sym (ap (λ b. b.id) answer), ap (λ b. b.registered) answer)),
        ),
      )
