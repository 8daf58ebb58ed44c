-- ===== src/Store/Lasting.antt =====
-- The invariant of the policy store of Control-DB/zerotrace/policy/store.py over publications, and
-- what a load after one gives.
use mathlib.Core.Path.{subst}
use mathlib.Core.Option.{some-injective}
use zero_trace.Prelude.{
  ℕ, String, ◌≡◌, refl, sym, ap, ◌∙◌, ◌⊎◌, inl, inr, Option, none, some, List, [], ◌∷◌, ◌++◌, arith,
  str_eq, eq_iff, Option-cases, Bool-cases,
}
use zero_trace.Ledger.Hashing.{Hashing}
use zero_trace.Policy.Publish.{Published, accepted, weakens_org_rule, check_bu_may_only_raise}
use zero_trace.Chains.Bindings.{policy_row_hash}
use zero_trace.Store.Documents.{
  Yaml, PolicyDraft, StoredPolicy, Tenant, parse, parse_draft, engine_policy, is_business_unit,
  stored_document, Rereads,
}
use zero_trace.Store.Blobs.{PolicyCache, Redis}
use zero_trace.Store.Rows.{PolicyRow, active_row, deactivate}
use zero_trace.Store.Load.{
  LoadResult, loaded, no_active_policy, invalid_policy, load, find_tenant, get_tenant,
}
use zero_trace.Store.Publish.{
  Note, Request, Db, published, may_publish, may_not, PublishError, check_raise, publish,
  next_version,
}
use zero_trace.Store.Published.{IsPublished, publish-IsPublished}
use zero_trace.Store.Versions.{WellVersioned, WellVersioned-next, active_row-next, next_from}
use zero_trace.Store.Coherent.{Coherent, Coherent-next, invalidate-Coherent}
use zero_trace.Store.Current.{IsCurrent, load-IsCurrent}
use zero_trace.Store.Stored.{parse-stored_yaml}

no_active-loaded :
    {p : StoredPolicy} {reason : Option String} {hash : String} {c : PolicyCache}
    → no_active_policy ≡ loaded p reason hash c
    → ⊥
no_active-loaded e = cc

unparsed : {p : StoredPolicy} → none ≡ some p → ⊥
unparsed e = cc

LoadResult-cases :
    (l : LoadResult)
    → (l ≡ no_active_policy)
      ⊎ (l ≡ invalid_policy)
      ⊎ ((p : StoredPolicy) × (reason : Option String) × (hash : String) × (c : PolicyCache) × (l
            ≡ loaded p reason hash c))
LoadResult-cases no_active_policy = inl refl
LoadResult-cases invalid_policy = inr (inl refl)
LoadResult-cases (loaded p reason hash c) = inr (inr (p, reason, hash, c, refl))

may_publish_injective : (c d : PolicyCache) → may_publish c ≡ may_publish d → c ≡ d
may_publish_injective c d e = cc

may_not-may_publish : (why : PublishError) (c : PolicyCache) → may_not why ≡ may_publish c → ⊥
may_not-may_publish why c e = cc

Published-cases :
    (p : Published) → (p ≡ accepted) ⊎ ((b : ℕ) × (o : ℕ) × (p ≡ weakens_org_rule b o))
Published-cases accepted = inl refl
Published-cases (weakens_org_rule b o) = inr (b, o, refl)

found-id :
    (t : String) (tenants : List Tenant) (tenant : Tenant)
    → find_tenant t tenants ≡ some tenant
    → tenant.id ≡ t
found-id t [] tenant e = absurd (ground arith)
found-id t (x ∷ xs) tenant e = elim (Bool-cases (str_eq x.id t)) [
  | inl same ↦
      subst (λ (y : Tenant). y.id ≡ t) (some-injective _ _ (rw same at e)) ((eq_iff x.id t).0 same)
  | inr other ↦ found-id t xs tenant (rw other at e)
]

get_tenant-id :
    (t : String) (tenants : List Tenant) (tenant : Tenant)
    → get_tenant t tenants ≡ some tenant
    → tenant.id ≡ t
unfolding get_tenant
get_tenant-id t tenants tenant e = found-id t tenants tenant e

module _ (h : Hashing) (hex : List h.Byte → String) (row_json : String → ℕ → String → List h.Byte)
    (yaml : Yaml) (describe : Note → String) where
  abbrev D : Type 0
  D = Db h hex row_json yaml describe

  -- Versions are consecutive and only the last is active, and every cached YAML is that of its row.
  abbrev pub IsSound : D → Type 0
  IsSound db = WellVersioned db.policies × Coherent db.policies db.cache

  load-Coherent :
      (rows : List PolicyRow) (r r' : Redis) (t : String) (c d : PolicyCache) (p : StoredPolicy)
      (reason : Option String) (hash : String)
      → WellVersioned rows
      → Coherent rows c
      → load h hex row_json yaml r r' t rows c ≡ loaded p reason hash d
      → Coherent rows d
  unfolding load
  load-Coherent rows r r' t c d p reason hash ordered ok e =
      elim (Option-cases (active_row t rows)) [
        | inl lost ↦ absurd (no_active-loaded (rw (load, lost) at e))
        | inr (row, active) ↦
            let current : IsCurrent h hex row_json yaml rows t row (loaded p reason hash d) =
              subst (IsCurrent h hex row_json yaml rows t row) e
                (load-IsCurrent h hex row_json yaml rows r r' t row c ordered ok active) in
            current.1.1
      ]

  check_raise-Coherent :
      (q : Request) (tenant : Tenant) (draft : PolicyDraft) (version : ℕ) (db : D) (c : PolicyCache)
      → IsSound db
      → check_raise h hex row_json yaml describe q tenant draft version db ≡ may_publish c
      → Coherent db.policies c
  unfolding check_raise
  check_raise-Coherent q tenant draft version db c (ordered, ok) e =
      elim (Option-cases tenant.parent_id) [
        | inl root ↦
            subst (Coherent db.policies) (may_publish_injective _ _ (rw (check_raise, root) at e))
              ok
        | inr (parent, child) ↦
            elim (LoadResult-cases
              (load h hex row_json yaml q.redis_get q.redis_set parent db.policies db.cache)) [
                | inl free ↦
                    subst (Coherent db.policies)
                      (may_publish_injective _ _ (rw (check_raise, child, free) at e)) ok
                | inr (inl bad) ↦
                    absurd (may_not-may_publish _ c (rw (check_raise, child, bad) at e))
                | inr (inr (org, reason, hash, d, good)) ↦
                    elim (Published-cases (
                      check_bu_may_only_raise (engine_policy org)
                        (engine_policy (record { draft = draft; version = version })))) [
                          | inr (b, o, weak) ↦
                              absurd
                                (may_not-may_publish _ c (rw (check_raise, child, good, weak) at e))
                          | inl raised ↦
                              subst (Coherent db.policies)
                                (may_publish_injective _ _
                                  (rw (check_raise, child, good, raised) at e))
                                (load-Coherent db.policies q.redis_get q.redis_set parent db.cache d
                                  org reason hash ordered ok good)
                        ]
              ]
      ]

  next_version-next_from : (o : Option PolicyRow) → next_version o ≡ next_from 1 o
  next_version-next_from none = refl
  next_version-next_from (some r) = refl

  module _ (q : Request) (tenants : List Tenant) (t yaml_text : String) (db db' : D)
      (row : PolicyRow) where
    abbrev Checked : Type 0
    Checked = IsPublished h hex row_json yaml describe q tenants t yaml_text db db' row

    next-WellVersioned : WellVersioned db.policies → Checked → WellVersioned db'.policies
    next-WellVersioned ordered p = subst WellVersioned (sym p.policies_are) (
        WellVersioned-next p.tenant.id db.policies row ordered
          (ap (λ (r : PolicyRow). r.tenant_id) p.row_is)
          (ap (λ (r : PolicyRow). r.version) p.row_is
            ∙ next_version-next_from (active_row p.tenant.id db.policies))
          (ap (λ (r : PolicyRow). r.active) p.row_is))

    next-Coherent : IsSound db → Checked → Coherent db'.policies db'.cache
    next-Coherent sound p =
        let kept =
          check_raise-Coherent q p.tenant p.draft
            (next_version (active_row p.tenant.id db.policies)) db p.cache sound p.raises in
        subst (λ rows. Coherent rows db'.cache) (sym p.policies_are)
          (subst (Coherent (deactivate p.tenant.id db.policies ++ row ∷ [])) (sym p.cache_is) (
            invalidate-Coherent (deactivate p.tenant.id db.policies ++ row ∷ []) p.tenant.id p.cache
              (Coherent-next p.tenant.id row db.policies p.cache kept)))

    -- A publication keeps every tenant's versions consecutive with the last alone active, and every
    -- cached YAML that of its row.
    pub publish-IsSound :
        IsSound db
        → publish h hex row_json yaml describe q tenants t yaml_text db ≡ published row db'
        → IsSound db'
    publish-IsSound sound e =
        let p =
          publish-IsPublished h hex row_json yaml describe q tenants t yaml_text db db' row e in
        (next-WellVersioned sound.0 p, next-Coherent sound p)

    next_active : Checked → active_row t db'.policies ≡ some row
    next_active p =
        let mine : row.tenant_id ≡ t =
          ap (λ (r : PolicyRow). r.tenant_id) p.row_is ∙ get_tenant-id t tenants p.tenant p.found in
        subst (λ rows. active_row t rows ≡ some row) (sym p.policies_are)
          (subst (λ u. active_row t (deactivate u db.policies ++ row ∷ []) ≡ some row)
            (sym (get_tenant-id t tenants p.tenant p.found))
            (active_row-next t db.policies row mine (ap (λ (r : PolicyRow). r.active) p.row_is)))

    -- What the publication stores loads again.
    abbrev pub StoredRereads : Type 0
    StoredRereads =
        (draft : PolicyDraft) (tenant : Tenant)
        → parse_draft yaml yaml_text ≡ some draft
        → get_tenant t tenants ≡ some tenant
        → Rereads yaml (
            stored_document draft (next_version (active_row tenant.id db.policies))
              (is_business_unit tenant))

    row-parses :
        StoredRereads
        → (p : Checked)
        → parse yaml row.yaml ≡ some (record { draft = p.draft; version = row.version })
    row-parses again p =
        subst
          (λ (r : PolicyRow).
            parse yaml r.yaml ≡ some (record { draft = p.draft; version = r.version }))
          (sym p.row_is)
          (parse-stored_yaml yaml p.tenant p.draft yaml_text
            (next_version (active_row p.tenant.id db.policies))
            (again p.draft p.tenant p.parsed p.found) p.parsed p.owned)

    row-hash : Checked → policy_row_hash h hex row_json t row.version row.yaml ≡ row.content_hash
    row-hash p =
        subst (λ u. policy_row_hash h hex row_json u row.version row.yaml ≡ row.content_hash)
          (get_tenant-id t tenants p.tenant p.found)
          (subst
            (λ (r : PolicyRow).
              policy_row_hash h hex row_json p.tenant.id r.version r.yaml ≡ r.content_hash)
            (sym p.row_is) refl)

    -- After a publication from a sound state, where what it stores loads again, and in whatever
    -- state Redis is, a load of the tenant gives
    -- the draft that was submitted, under the version and the content hash of the new row.
    pub publish-load :
        (r r' : Redis)
        → StoredRereads
        → IsSound db
        → publish h hex row_json yaml describe q tenants t yaml_text db ≡ published row db'
        → (draft : PolicyDraft) × (reason : Option String) × (cache : PolicyCache) × ((parse_draft
                yaml yaml_text
              ≡ some draft)
            × (load h hex row_json yaml r r' t db'.policies db'.cache
                ≡ loaded
                    (record { draft = draft; version = row.version })
                    reason
                    row.content_hash
                    cache))
    publish-load r r' again sound e =
        let p =
          publish-IsPublished h hex row_json yaml describe q tenants t yaml_text db db' row e in
        let sound' = publish-IsSound sound e in
        let current =
          load-IsCurrent h hex row_json yaml db'.policies r r' t row db'.cache sound'.0 sound'.1
            (next_active p) in
        elim (LoadResult-cases (load h hex row_json yaml r r' t db'.policies db'.cache)) [
          | inl lost ↦
              absurd (subst (IsCurrent h hex row_json yaml db'.policies t row) lost current)
          | inr (inl bad) ↦ absurd (
              unparsed (
                sym (subst (IsCurrent h hex row_json yaml db'.policies t row) bad current)
                ∙ row-parses again p))
          | inr (inr (policy, reason, hash, cache, good)) ↦
              let (reads, (same_hash, _)) =
                subst (IsCurrent h hex row_json yaml db'.policies t row) good current in
              (
                p.draft,
                reason,
                cache,
                (
                  p.parsed,
                  good
                      ∙ ap (λ x. loaded x reason hash cache)
                          (some-injective _ _ (sym reads ∙ row-parses again p))
                      ∙ ap
                          (λ y.
                            loaded (record { draft = p.draft; version = row.version }) reason y
                              cache)
                          (same_hash ∙ row-hash p),
                ),
              )
        ]
