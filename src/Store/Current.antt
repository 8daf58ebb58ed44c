-- ===== src/Store/Current.antt =====
-- Loads and publications of Control-DB/zerotrace/policy/store.py together: a load gives the active
-- version, and a publication is what the next load gives.
use mathlib.Core.Path.{subst}
use mathlib.Core.Option.{some-injective}
use zero_trace.Prelude.{
  ℕ, String, ◌≡◌, refl, sym, ap, ◌∙◌, inl, inr, Option, none, some, List, Option-cases,
}
use zero_trace.Ledger.Hashing.{Hashing}
use zero_trace.Chains.Bindings.{policy_row_hash}
use zero_trace.Store.Documents.{Yaml, parse}
use zero_trace.Store.Blobs.{PolicyCache, Redis, get, degrade_reason}
use zero_trace.Store.Rows.{PolicyRow, active_row}
use zero_trace.Store.Load.{
  LoadResult, loaded, no_active_policy, invalid_policy, load, load_active_row, load_blob, load_row,
}
use zero_trace.Store.Versions.{WellVersioned, version_row-active_row}
use zero_trace.Store.Coherent.{Coherent, yaml_of, stored_blob, get-Coherent, set-Coherent}

module _ (h : Hashing) (hex : List h.Byte → String) (row_json : String → ℕ → String → List h.Byte)
    (yaml : Yaml) where
  -- What a load should give for an active row: the policy of the row and the hash of the row.
  abbrev pub IsCurrent : List PolicyRow → String → PolicyRow → LoadResult → Type 0
  IsCurrent rows t row invalid_policy = parse yaml row.yaml ≡ none
  IsCurrent rows t row no_active_policy = ⊥
  IsCurrent rows t row (loaded policy reason hash c) =
      (parse yaml row.yaml ≡ some policy)
      × ((hash ≡ policy_row_hash h hex row_json t row.version row.yaml) × Coherent rows c)

  load_blob-IsCurrent :
      (rows : List PolicyRow) (t : String) (row : PolicyRow) (reason : Option String)
      (c : PolicyCache)
      → Coherent rows c
      → IsCurrent rows t row (load_blob h hex row_json yaml t row.version row.yaml reason c)
  unfolding load_blob
  load_blob-IsCurrent rows t row reason c ok = elim (Option-cases (parse yaml row.yaml)) [
    | inl bad ↦ rw (load_blob, bad) bad
    | inr (policy, good) ↦ rw (load_blob, good) (good, (refl, ok))
  ]

  load_row-IsCurrent :
      (rows : List PolicyRow) (r' : Redis) (t : String) (row : PolicyRow) (c : PolicyCache)
      → stored_blob rows t row.version ≡ some row.yaml
      → Coherent rows c
      → IsCurrent rows t row (load_row h hex row_json yaml r' t row c)
  unfolding load_row
  load_row-IsCurrent rows r' t row c stored ok = elim (Option-cases (parse yaml row.yaml)) [
    | inl bad ↦ rw (load_row, bad) bad
    | inr (policy, good) ↦
        rw (load_row, good) (good, (refl, set-Coherent rows r' t row.version row.yaml c stored ok))
  ]

  load_active_row-IsCurrent :
      (rows : List PolicyRow) (r r' : Redis) (t : String) (row : PolicyRow) (c : PolicyCache)
      → stored_blob rows t row.version ≡ some row.yaml
      → Coherent rows c
      → IsCurrent rows t row (load_active_row h hex row_json yaml r r' t row c)
  unfolding load_active_row
  load_active_row-IsCurrent rows r r' t row c stored ok =
      let (kept, agrees) = get-Coherent rows r t row.version c ok in
      elim (Option-cases (get r t row.version c).0) [
        | inl miss ↦
            rw (load_active_row, miss)
              (load_row-IsCurrent rows r' t row (get r t row.version c).1 stored kept)
        | inr (blob, hit) ↦
            rw (load_active_row, hit)
              (subst
                (λ b. IsCurrent rows t row (
                  load_blob h hex row_json yaml t row.version b
                    (degrade_reason (get r t row.version c).1) (get r t row.version c).1))
                (some-injective _ _ (sym stored ∙ agrees blob hit))
                (load_blob-IsCurrent rows t row (degrade_reason (get r t row.version c).1)
                  (get r t row.version c).1 kept))
      ]

  -- Over well-versioned rows and coherent caches, and in whatever state Redis is, a load of a tenant
  -- with an active row gives the policy that the row's YAML parses to with the hash of that row, or
  -- refuses because it does not parse; and it leaves the caches coherent.
  pub load-IsCurrent :
      (rows : List PolicyRow) (r r' : Redis) (t : String) (row : PolicyRow) (c : PolicyCache)
      → WellVersioned rows
      → Coherent rows c
      → active_row t rows ≡ some row
      → IsCurrent rows t row (load h hex row_json yaml r r' t rows c)
  unfolding load
  load-IsCurrent rows r r' t row c ordered ok active =
      rw (load, active)
        (load_active_row-IsCurrent rows r r' t row c
          (ap yaml_of (version_row-active_row t rows row ordered active)) ok)
