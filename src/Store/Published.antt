-- ===== src/Store/Published.antt =====
-- What a publication of Control-DB/zerotrace/policy/store.py that succeeds has checked and written.
use mathlib.Core.Path.{subst}
use zero_trace.Prelude.{
  ℕ, String, ◌≡◌, refl, sym, ap, ◌∙◌, ◌⊎◌, inl, inr, true, Option, none, some, List, [], ◌∷◌, ◌++◌,
  map, length, Option-cases, Bool-cases,
}
use zero_trace.Ledger.Hashing.{Hashing}
use zero_trace.Chains.Records.{policy_updated}
use zero_trace.Chains.Rows
use zero_trace.Chains.Rows.{Table, Appended, append, appended, record_invalid}
use zero_trace.Gate.Cases.{Appended-cases}
use zero_trace.Store.Documents.{
  Yaml, PolicyDraft, Tenant, parse_draft, validate_ownership, is_business_unit, stored_yaml,
}
use zero_trace.Store.Blobs.{PolicyCache, invalidate}
use zero_trace.Store.Rows.{PolicyRow, active_row, deactivate}
use zero_trace.Store.Load.{get_tenant}
use zero_trace.Store.Publish.{
  Note, Request, Db, published, refused, PublishError, Raised, may_publish, may_not,
  check_expected_version, check_raise, new_policy_row, write, publish_draft, publish, diff_summary,
  next_version, version_of, yaml_of,
}

Raised-cases :
    (r : Raised)
    → ((why : PublishError) × (r ≡ may_not why)) ⊎ ((cache : PolicyCache) × (r ≡ may_publish cache))
Raised-cases (may_not why) = inl (why, refl)
Raised-cases (may_publish cache) = inr (cache, refl)

module _ (h : Hashing) (hex : List h.Byte → String) (row_json : String → ℕ → String → List h.Byte)
    (yaml : Yaml) (describe : Note → String) where
  abbrev D : Type 0
  D = Db h hex row_json yaml describe

  -- The checks that a publication has passed, and the state that it leaves.
  pub record IsPublished (q : Request) (tenants : List Tenant) (t yaml_text : String) (db db' : D)
      (row : PolicyRow) : Type 0 where
    pub draft : PolicyDraft
    pub tenant : Tenant
    pub cache : PolicyCache
    pub notes : List Note
    pub ledger_row : Rows.Row h hex
    pub parsed : parse_draft yaml yaml_text ≡ some draft
    pub found : get_tenant t tenants ≡ some tenant
    pub owned : validate_ownership yaml tenant draft yaml_text ≡ true
    pub expected :
        check_expected_version (active_row tenant.id db.policies) q.expected_active_version ≡ true
    pub raises :
        check_raise h hex row_json yaml describe q tenant draft
          (next_version (active_row tenant.id db.policies))
          db
        ≡ may_publish cache
    pub row_is :
        row
        ≡ new_policy_row h hex row_json yaml describe tenant.id
            (next_version (active_row tenant.id db.policies))
            (stored_yaml yaml draft
              (next_version (active_row tenant.id db.policies))
              (is_business_unit tenant))
    pub policies_are : db'.policies ≡ deactivate tenant.id db.policies ++ row ∷ []
    pub cache_is : db'.cache ≡ invalidate tenant.id cache
    pub recorded :
        append h hex tenant.id "policy.updated"
          (policy_updated (record {
            version = row.version;
            previous_version = version_of (active_row tenant.id db.policies);
            published_by = q.published_by;
            rule_count = length draft.rules;
            content_hash = row.content_hash;
            diff_summary = map describe notes;
          }))
          none
          q.ts
          q.anchor_ts
          db.ledger
        ≡ appended ledger_row db'.ledger

  refused-published :
      (why : PublishError) (row : PolicyRow) (db : D) → refused why ≡ published row db → ⊥
  refused-published why row db e = cc

  published_injective :
      (r s : PolicyRow) (d e : D) → published r d ≡ published s e → (r ≡ s) × (d ≡ e)
  published_injective r s d e p = (cc, cc)

  module _ (q : Request) (tenants : List Tenant) (t yaml_text : String) (db db' : D)
      (row : PolicyRow) (draft : PolicyDraft) (tenant : Tenant) where
    -- `write` inserts its row and records it.
    pub record IsWritten (previous : Option PolicyRow) (made : PolicyRow) (cache : PolicyCache)
        : Type 0 where
      pub notes : List Note
      pub ledger_row : Rows.Row h hex
      pub same : made ≡ row
      pub policies_are : db'.policies ≡ deactivate made.tenant_id db.policies ++ made ∷ []
      pub cache_is : db'.cache ≡ invalidate made.tenant_id cache
      pub recorded :
          append h hex made.tenant_id "policy.updated"
            (policy_updated (record {
              version = made.version;
              previous_version = version_of previous;
              published_by = q.published_by;
              rule_count = length draft.rules;
              content_hash = made.content_hash;
              diff_summary = map describe notes;
            }))
            none
            q.ts
            q.anchor_ts
            db.ledger
          ≡ appended ledger_row db'.ledger

    write-IsWritten :
        (previous : Option PolicyRow) (made : PolicyRow) (cache : PolicyCache)
        → write h hex row_json yaml describe q draft previous made cache db ≡ published row db'
        → IsWritten previous made cache
    unfolding write
    write-IsWritten previous made cache e =
        elim (Option-cases (diff_summary yaml (yaml_of previous) made.yaml)) [
          | inl bad ↦ absurd (refused-published _ row db' (rw (write, bad) at e))
          | inr (notes, good) ↦
              elim (Appended-cases h hex (
                append h hex made.tenant_id "policy.updated"
                  (policy_updated (record {
                    version = made.version;
                    previous_version = version_of previous;
                    published_by = q.published_by;
                    rule_count = length draft.rules;
                    content_hash = made.content_hash;
                    diff_summary = map describe notes;
                  }))
                  none q.ts q.anchor_ts db.ledger)) [
                    | inl bad ↦ absurd (refused-published _ row db' (rw (write, good, bad) at e))
                    | inr (ledger_row, ledger, done) ↦
                        let (same, state) =
                          published_injective made row _ db' (rw (write, good, done) at e) in
                        record {
                          notes = notes;
                          ledger_row = ledger_row;
                          same = same;
                          policies_are = sym (ap (λ (d : D). d.policies) state);
                          cache_is = sym (ap (λ (d : D). d.cache) state);
                          recorded = done ∙ ap (λ (d : D). appended ledger_row d.ledger) state;
                        }
                  ]
        ]

    publish_draft-IsPublished :
        parse_draft yaml yaml_text ≡ some draft
        → get_tenant t tenants ≡ some tenant
        → validate_ownership yaml tenant draft yaml_text ≡ true
        → publish_draft h hex row_json yaml describe q tenant draft db ≡ published row db'
        → IsPublished q tenants t yaml_text db db' row
    unfolding publish_draft
    publish_draft-IsPublished parsed found owned e =
        let previous = active_row tenant.id db.policies in
        elim (Bool-cases (check_expected_version previous q.expected_active_version)) [
          | inr conflict ↦ absurd (refused-published _ row db' (rw (publish_draft, conflict) at e))
          | inl expected ↦
              elim (Raised-cases (
                check_raise h hex row_json yaml describe q tenant draft (next_version previous)
                  db)) [
                    | inl (why, said) ↦
                        absurd
                          (refused-published _ row db' (rw (publish_draft, expected, said) at e))
                    | inr (cache, may) ↦
                        let wrote =
                          write-IsWritten previous _ cache
                            (rw (publish_draft, expected, may) at e) in
                        record {
                          draft = draft;
                          tenant = tenant;
                          cache = cache;
                          notes = wrote.notes;
                          ledger_row = wrote.ledger_row;
                          parsed = parsed;
                          found = found;
                          owned = owned;
                          expected = expected;
                          raises = may;
                          row_is = sym wrote.same;
                          policies_are =
                              wrote.policies_are
                              ∙ ap (λ r. deactivate tenant.id db.policies ++ r ∷ []) wrote.same;
                          cache_is = wrote.cache_is;
                          recorded =
                              subst
                                (λ (r : PolicyRow).
                                  append h hex tenant.id "policy.updated"
                                    (policy_updated (record {
                                      version = r.version;
                                      previous_version = version_of previous;
                                      published_by = q.published_by;
                                      rule_count = length draft.rules;
                                      content_hash = r.content_hash;
                                      diff_summary = map describe wrote.notes;
                                    }))
                                    none q.ts q.anchor_ts db.ledger
                                  ≡ appended wrote.ledger_row db'.ledger)
                                wrote.same wrote.recorded;
                        }
                  ]
        ]

  -- A publication that succeeds has passed every check, inserts one row with the next version and the
  -- stored form of the draft, retires the tenant's rows, and records the row's hash in the ledger.
  pub publish-IsPublished :
      (q : Request) (tenants : List Tenant) (t yaml_text : String) (db db' : D) (row : PolicyRow)
      → publish h hex row_json yaml describe q tenants t yaml_text db ≡ published row db'
      → IsPublished q tenants t yaml_text db db' row
  unfolding publish
  publish-IsPublished q tenants t yaml_text db db' row e =
      elim (Option-cases (parse_draft yaml yaml_text)) [
        | inl bad ↦ absurd (refused-published _ row db' (rw (publish, bad) at e))
        | inr (draft, parsed) ↦ elim (Option-cases (get_tenant t tenants)) [
          | inl lost ↦ absurd (refused-published _ row db' (rw (publish, parsed, lost) at e))
          | inr (tenant, found) ↦
              elim (Bool-cases (validate_ownership yaml tenant draft yaml_text)) [
                | inr alien ↦
                    absurd (refused-published _ row db' (rw (publish, parsed, found, alien) at e))
                | inl owned ↦
                    publish_draft-IsPublished q tenants t yaml_text db db' row draft tenant parsed
                      found owned (rw (publish, parsed, found, owned) at e)
              ]
        ]
      ]
