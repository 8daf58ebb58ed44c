-- ===== src/Store/Rows.antt =====
-- The policies table of Control-DB/zerotrace/db/models.py with the queries of
-- Control-DB/zerotrace/policy/store.py. The unique index one_active_policy allows a tenant one
-- active row, so the query for it is the first that is found.
use zero_trace.Prelude.{
  ℕ, String, Bool, false, Option, none, some, List, [], ◌∷◌, ◌==◌, str_eq, keep, if◌then◌else◌,
}

pub record PolicyRow : Type 0 where
  pub tenant_id : String
  pub version : ℕ
  pub yaml : String
  pub content_hash : String
  pub active : Bool

abbrev pub history : String → List PolicyRow → List PolicyRow
history t rows = keep (λ (r : PolicyRow). str_eq r.tenant_id t) rows

abbrev pub first_active : List PolicyRow → Option PolicyRow
first_active [] = none
first_active (r ∷ rs) = if r.active then some r else first_active rs

-- The active row of a tenant.
unfoldable pub active_row : String → List PolicyRow → Option PolicyRow
active_row t rows = first_active (history t rows)

abbrev pub first_version : ℕ → List PolicyRow → Option PolicyRow
first_version v [] = none
first_version v (r ∷ rs) = if r.version == v then some r else first_version v rs

-- The row of a tenant and a version.
unfoldable pub version_row : String → ℕ → List PolicyRow → Option PolicyRow
version_row t v rows = first_version v (history t rows)

abbrev pub retire : PolicyRow → PolicyRow
retire r = record r { active = false }

-- `update(PolicyRow)...values(active=False)`
unfoldable pub deactivate : String → List PolicyRow → List PolicyRow
deactivate t [] = []
deactivate t (r ∷ rs) =
    let rest = deactivate t rs in if str_eq r.tenant_id t then retire r ∷ rest else r ∷ rest
