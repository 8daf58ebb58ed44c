-- ===== src/Store/Stored.antt =====
-- What Control-DB/zerotrace/policy/store.py stores is what was submitted.
use zero_trace.Prelude.{
  ℕ, String, ◌≡◌, refl, ap, ◌∙◌, ◌⊎◌, inl, inr, Bool, true, false, not, Option, none, some, arith,
  Option-cases, Bool-cases,
}
use mathlib.Core.Option.{some-injective}
use mathlib.Core.Path.{subst}
use zero_trace.Gate.Masking.{shadow}
use zero_trace.Store.Documents.{
  closed, PolicyDraft, Document, Loaded, unreadable, not_mapping, mapping, Yaml, Rereads, Reloads,
  draft_of, stored_document, Tenant, is_business_unit, parse, parse_draft, raw_has_mode,
  raw_has_fail, validate_ownership, stored_yaml, strip_version, is_some,
}

-- A business unit's draft has the defaults of the fields that it may not write.
abbrev as_stored : PolicyDraft → Bool → PolicyDraft
as_stored d true = record d { mode = shadow; fail = closed }
as_stored d false = d

module _ (yaml : Yaml) where
  parse-stored :
      (d : PolicyDraft) (v : ℕ) (bu : Bool)
      → Rereads yaml (stored_document d v bu)
      → parse yaml (stored_yaml yaml d v bu) ≡ some (record { draft = as_stored d bu; version = v })
  unfolding parse stored_yaml stored_document draft_of
  parse-stored d v true again = rw (parse, again) refl
  parse-stored d v false again = rw (parse, again) refl

  is_some-none {ℓ} : {A : Type ℓ} (o : Option A) → is_some o ≡ false → o ≡ none
  is_some-none none h = refl
  is_some-none (some a) h = absurd (ground arith)

  -- A document without mode and fail is read with their defaults.
  draft_of-defaults :
      (d : Document) (draft : PolicyDraft)
      → draft_of d ≡ some draft
      → is_some d.mode ≡ false
      → is_some d.fail ≡ false
      → as_stored draft true ≡ draft
  unfolding draft_of
  draft_of-defaults d draft e no_mode no_fail = elim (Bool-cases d.invalid) [
    | inl invalid ↦ absurd (ground arith)
    | inr valid ↦ elim (Option-cases d.org) [
      | inl lost ↦ absurd (ground arith)
      | inr (org, found) ↦
          subst (λ x. as_stored x true ≡ x)
            (some-injective _ _ (
              rw (draft_of, valid, found, is_some-none d.mode no_mode, is_some-none d.fail no_fail)
                at e))
            refl
    ]
  ]

  Loaded-cases :
      (l : Loaded) → (l ≡ unreadable) ⊎ (l ≡ not_mapping) ⊎ ((d : Document) × (l ≡ mapping d))
  Loaded-cases unreadable = inl refl
  Loaded-cases not_mapping = inr (inl refl)
  Loaded-cases (mapping d) = inr (inr (d, refl))

  -- A draft that its tenant may publish is what its stored form says.
  stored_as_written :
      (tenant : Tenant) (draft : PolicyDraft) (yaml_text : String)
      → parse_draft yaml yaml_text ≡ some draft
      → validate_ownership yaml tenant draft yaml_text ≡ true
      → as_stored draft (is_business_unit tenant) ≡ draft
  unfolding parse_draft validate_ownership
  stored_as_written tenant draft yaml_text parsed owned = elim (Option-cases tenant.parent_id) [
    | inl root ↦ rw root refl
    | inr (parent, child) ↦ elim (Loaded-cases (yaml.safe_load yaml_text)) [
      | inl lost ↦ absurd (ground arith)
      | inr (inl lost) ↦ absurd (ground arith)
      | inr (inr (d, read)) ↦ rw child (
          draft_of-defaults d draft (ground (arith, rw (parse_draft, read) at parsed))
            (ground
              (arith, rw (validate_ownership, child, raw_has_mode, raw_has_fail, read) at owned))
            (ground
              (arith, rw (validate_ownership, child, raw_has_mode, raw_has_fail, read) at owned)))
    ]
  ]

  -- A draft that its tenant may publish is read back from its stored form, with the version, where
  -- what is dumped loads again.
  pub parse-stored_yaml :
      (tenant : Tenant) (draft : PolicyDraft) (yaml_text : String) (version : ℕ)
      → Rereads yaml (stored_document draft version (is_business_unit tenant))
      → parse_draft yaml yaml_text ≡ some draft
      → validate_ownership yaml tenant draft yaml_text ≡ true
      → parse yaml (stored_yaml yaml draft version (is_business_unit tenant))
        ≡ some (record { draft = draft; version = version })
  parse-stored_yaml tenant draft yaml_text version again parsed owned =
      parse-stored draft version (is_business_unit tenant) again
      ∙ ap (λ d. some (record { draft = d; version = version }))
          (stored_as_written tenant draft yaml_text parsed owned)

  -- What `strip_version` dumps for a stored draft.
  abbrev pub stripped : PolicyDraft → ℕ → Bool → Document
  stripped d v bu = record (stored_document d v bu) { version = none }

  strip-stored :
      (d : PolicyDraft) (v : ℕ) (bu : Bool)
      → Rereads yaml (stored_document d v bu)
      → strip_version yaml (stored_yaml yaml d v bu) ≡ some (yaml.safe_dump (stripped d v bu))
  unfolding strip_version stored_yaml stored_document
  strip-stored d v true again = rw (strip_version, again) refl
  strip-stored d v false again = rw (strip_version, again) refl

  redraft :
      (d : PolicyDraft) (v : ℕ) (bu : Bool) (text : String)
      → yaml.safe_load text ≡ mapping (stripped d v bu)
      → (parse_draft yaml text ≡ some (as_stored d bu))
        × ((raw_has_mode yaml text ≡ not bu) × (raw_has_fail yaml text ≡ not bu))
  unfolding parse_draft stored_document draft_of
  redraft d v true text e =
      (rw (parse_draft, e) refl, (rw (raw_has_mode, e) refl, rw (raw_has_fail, e) refl))
  redraft d v false text e =
      (rw (parse_draft, e) refl, (rw (raw_has_mode, e) refl, rw (raw_has_fail, e) refl))

  -- Whether a tenant may publish a text depends only on the draft and on which of the keys mode and
  -- fail it has.
  still_owned :
      (tenant : Tenant) (draft : PolicyDraft) (yaml_text again : String)
      → raw_has_mode yaml again ≡ not (is_business_unit tenant)
      → raw_has_fail yaml again ≡ not (is_business_unit tenant)
      → validate_ownership yaml tenant draft yaml_text ≡ true
      → validate_ownership yaml tenant draft again ≡ true
  unfolding validate_ownership
  still_owned tenant draft yaml_text again m f owned = elim (Option-cases tenant.parent_id) [
    | inl root ↦
        rw (validate_ownership, root, rw root at m)
          (ground (arith, rw (validate_ownership, root) at owned))
    | inr (parent, child) ↦
        rw (validate_ownership, child, rw child at m, rw child at f)
          (ground (arith, rw (validate_ownership, child) at owned))
  ]

  -- The stored form of a draft that its tenant may publish, without its version, is a draft again: it
  -- parses to the same draft, and the tenant may publish it, where what is dumped loads again.
  pub strip-stored_yaml :
      (tenant : Tenant) (draft : PolicyDraft) (yaml_text : String) (version : ℕ)
      → Rereads yaml (stored_document draft version (is_business_unit tenant))
      → Reloads yaml (stripped draft version (is_business_unit tenant))
      → parse_draft yaml yaml_text ≡ some draft
      → validate_ownership yaml tenant draft yaml_text ≡ true
      → (again : String) × (strip_version yaml
            (stored_yaml yaml draft version (is_business_unit tenant))
          ≡ some again)
        × ((parse_draft yaml again ≡ some draft)
            × (validate_ownership yaml tenant draft again ≡ true))
  strip-stored_yaml tenant draft yaml_text version rereads reloads parsed owned =
      let (reparsed, (m, f)) = redraft draft version (is_business_unit tenant) _ reloads in
      (
        _,
        strip-stored draft version (is_business_unit tenant) rereads,
        (
          reparsed ∙ ap some (stored_as_written tenant draft yaml_text parsed owned),
          still_owned tenant draft yaml_text _ m f owned,
        ),
      )
