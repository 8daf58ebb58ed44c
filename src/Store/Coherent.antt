-- ===== src/Store/Coherent.antt =====
-- That no state of `PolicyCache` of Control-DB/zerotrace/policy/store.py shows in what is loaded.
use mathlib.Core.Path.{subst}
use zero_trace.Prelude.{
  ℕ, String, ◌≡◌, ◌∙◌, inl, inr, not, Option, none, some, List, [], ◌∷◌, ◌++◌, arith, ==→eq, eq_iff,
  All, All-keep, Bool-cases,
}
use zero_trace.Store.Blobs.{
  Entry, PolicyCache, Redis, same_key, lookup, store, probe, client, get_with, get, set_with, set,
  invalidate,
}
use zero_trace.Store.Rows.{PolicyRow, version_row, deactivate}

-- The YAML that the table holds for a tenant and a version.
abbrev pub yaml_of : Option PolicyRow → Option String
yaml_of none = none
yaml_of (some r) = some r.yaml

abbrev pub stored_blob : List PolicyRow → String → ℕ → Option String
stored_blob rows t v = yaml_of (version_row t v rows)

-- The entry holds what the table does.
abbrev pub AgreesWith : List PolicyRow → Entry → Type 0
AgreesWith rows e = stored_blob rows e.tenant_id e.version ≡ some e.blob

-- Every entry of the process and of Redis holds what the table does.
abbrev pub Coherent : List PolicyRow → PolicyCache → Type 0
Coherent rows c = All (AgreesWith rows) c.local × All (AgreesWith rows) c.server

lookup-agrees :
    (rows : List PolicyRow) (t : String) (v : ℕ) (es : List Entry) (blob : String)
    → All (AgreesWith rows) es
    → lookup t v es ≡ some blob
    → stored_blob rows t v ≡ some blob
lookup-agrees rows t v [] blob all e = absurd (ground arith)
lookup-agrees rows t v (x ∷ es) blob (agrees, all) e = elim (Bool-cases (same_key t v x)) [
  | inr other ↦ lookup-agrees rows t v es blob all (rw other at e)
  | inl same ↦
      let tenant : x.tenant_id ≡ t = (eq_iff x.tenant_id t).0 (ground (arith, same)) in
      let version : x.version ≡ v = ==→eq x.version v (ground (arith, same)) in
      subst (λ u. stored_blob rows u v ≡ some blob) tenant
        (subst (λ w. stored_blob rows x.tenant_id w ≡ some blob) version (agrees ∙ rw same at e))
]

client-Coherent :
    (rows : List PolicyRow) (r : Redis) (c : PolicyCache)
    → Coherent rows c
    → Coherent rows (client r c)
unfolding client probe
client-Coherent rows r c ok = ground (arith, ok)

get_with-Coherent :
    (rows : List PolicyRow) (r : Redis) (t : String) (v : ℕ) (c : PolicyCache)
    → Coherent rows c
    → Coherent rows (get_with r t v c).1
      × ((blob : String) → (get_with r t v c).0 ≡ some blob → stored_blob rows t v ≡ some blob)
unfolding get_with
get_with-Coherent rows r t v c (own, theirs) = elim (Bool-cases c.connected) [
  | inr off ↦
      rw (get_with, off) ((own, theirs), λ blob e. lookup-agrees rows t v c.local blob own e)
  | inl on ↦ elim (Bool-cases r.answers) [
    | inl answers ↦
        rw (get_with, on, answers)
          ((own, theirs), λ blob e. lookup-agrees rows t v c.server blob theirs e)
    | inr fails ↦
        rw (get_with, on, fails)
          ((own, theirs), λ blob e. lookup-agrees rows t v c.local blob own e)
  ]
]

store-agrees :
    (rows : List PolicyRow) (t : String) (v : ℕ) (blob : String) (es : List Entry)
    → stored_blob rows t v ≡ some blob
    → All (AgreesWith rows) es
    → All (AgreesWith rows) (store t v blob es)
store-agrees rows t v blob es e all =
    (e, All-keep (AgreesWith rows) (λ x. not (same_key t v x)) es all)

set_with-Coherent :
    (rows : List PolicyRow) (r : Redis) (t : String) (v : ℕ) (blob : String) (c : PolicyCache)
    → stored_blob rows t v ≡ some blob
    → Coherent rows c
    → Coherent rows (set_with r t v blob c)
unfolding set_with
set_with-Coherent rows r t v blob c e (own, theirs) =
    let own' = store-agrees rows t v blob c.local e own in
    let theirs' = store-agrees rows t v blob c.server e theirs in
    elim (Bool-cases c.connected) [
      | inr off ↦ rw (set_with, off) (own', theirs)
      | inl on ↦ elim (Bool-cases r.answers) [
        | inl answers ↦ rw (set_with, on, answers) (own', theirs')
        | inr fails ↦ rw (set_with, on, fails) (own', theirs)
      ]
    ]

-- What a read answers is what the table holds, whatever state Redis is in.
pub get-Coherent :
    (rows : List PolicyRow) (r : Redis) (t : String) (v : ℕ) (c : PolicyCache)
    → Coherent rows c
    → Coherent rows (get r t v c).1
      × ((blob : String) → (get r t v c).0 ≡ some blob → stored_blob rows t v ≡ some blob)
unfolding get
get-Coherent rows r t v c ok =
    get_with-Coherent rows r t v (client r c) (client-Coherent rows r c ok)

pub set-Coherent :
    (rows : List PolicyRow) (r : Redis) (t : String) (v : ℕ) (blob : String) (c : PolicyCache)
    → stored_blob rows t v ≡ some blob
    → Coherent rows c
    → Coherent rows (set r t v blob c)
unfolding set
set-Coherent rows r t v blob c e ok =
    set_with-Coherent rows r t v blob (client r c) e (client-Coherent rows r c ok)

pub invalidate-Coherent :
    (rows : List PolicyRow) (t : String) (c : PolicyCache)
    → Coherent rows c
    → Coherent rows (invalidate t c)
unfolding invalidate
invalidate-Coherent rows t c (own, theirs) = (All-keep (AgreesWith rows) _ c.local own, theirs)

-- A publication leaves the YAML of the versions that there are.
stored_blob-next :
    (t u : String) (v : ℕ) (new : PolicyRow) (rows : List PolicyRow) (blob : String)
    → stored_blob rows u v ≡ some blob
    → stored_blob (deactivate t rows ++ new ∷ []) u v ≡ some blob
unfolding version_row deactivate
stored_blob-next t u v new [] blob e = absurd (ground arith)
stored_blob-next t u v new (r ∷ rs) blob e = ground (arith, stored_blob-next t u v new rs blob, e)

All-agrees-next :
    (t : String) (new : PolicyRow) (rows : List PolicyRow) (es : List Entry)
    → All (AgreesWith rows) es
    → All (AgreesWith (deactivate t rows ++ new ∷ [])) es
All-agrees-next t new rows [] all = tt
All-agrees-next t new rows (x ∷ es) (a, all) =
    (stored_blob-next t x.tenant_id x.version new rows x.blob a, All-agrees-next t new rows es all)

pub Coherent-next :
    (t : String) (new : PolicyRow) (rows : List PolicyRow) (c : PolicyCache)
    → Coherent rows c
    → Coherent (deactivate t rows ++ new ∷ []) c
Coherent-next t new rows c (own, theirs) =
    (All-agrees-next t new rows c.local own, All-agrees-next t new rows c.server theirs)
