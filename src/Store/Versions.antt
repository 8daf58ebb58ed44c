-- ===== src/Store/Versions.antt =====
-- The rows of a tenant in the policies table of Control-DB/zerotrace/policy/store.py: versions 1, 2,
-- 3 and so on, of which the last is active.
use mathlib.Core.Path.{subst}
use zero_trace.Prelude.{
  ℕ, ◌+◌, ◌≤◌, ◌<◌, String, ◌≡◌, refl, sym, ap, ◌∙◌, inl, inr, Bool, true, false, Option, none,
  some, List, [], ◌∷◌, ◌++◌, map, arith, ◌==◌, str_eq, eq_iff, keep-append, Bool-cases, ==_refl,
  if◌then◌else◌,
}
use mathlib.Core.List.{append-nil}
use mathlib.Core.Option.{some-injective}
use zero_trace.Store.Rows.{
  PolicyRow, history, first_active, active_row, first_version, version_row, retire, deactivate,
}

if_true {ℓ} : {A : Type ℓ} (b : Bool) (x y : A) → b ≡ true → (if b then x else y) ≡ x
if_true b x y h = rw h refl

-- Versions from `k` on, of which the last one alone is active.
abbrev pub Consecutive : ℕ → List PolicyRow → Type 0
Consecutive k [] = Unit
Consecutive k (r ∷ []) = (r.version ≡ k) × (r.active ≡ true)
Consecutive k (r ∷ s ∷ rs) = (r.version ≡ k) × ((r.active ≡ false) × Consecutive (k + 1) (s ∷ rs))

-- Every tenant's versions are 1, 2, 3 and so on, and the last is active.
abbrev pub WellVersioned : List PolicyRow → Type 0
WellVersioned rows = (t : String) → Consecutive 1 (history t rows)

-- The next version, after `k` and what follows it.
abbrev pub next_from : ℕ → Option PolicyRow → ℕ
next_from k none = k
next_from k (some r) = r.version + 1

first_active-exists :
    (k : ℕ) (r : PolicyRow) (rs : List PolicyRow)
    → Consecutive k (r ∷ rs)
    → (s : PolicyRow) × ((first_active (r ∷ rs) ≡ some s) × (k ≤ s.version))
first_active-exists k r [] (v, a) = (r, (rw a refl, omega (arith, v)))
first_active-exists k r (s ∷ rs) (v, (a, c)) =
    let (x, (e, le)) = first_active-exists (k + 1) s rs c in (x, (rw a e, omega (arith, le)))

next_from-some :
    (j k : ℕ) (o : Option PolicyRow) (r : PolicyRow) → o ≡ some r → next_from j o ≡ next_from k o
next_from-some j k none r e = cc
next_from-some j k (some s) r e = refl

later_version :
    (k : ℕ) (r s : PolicyRow) (rs : List PolicyRow) (new : PolicyRow)
    → r.version ≡ k
    → r.active ≡ false
    → Consecutive (k + 1) (s ∷ rs)
    → new.version ≡ next_from k (first_active (r ∷ s ∷ rs))
    → new.version ≡ next_from (k + 1) (first_active (s ∷ rs))
later_version k r s rs new w b c v =
    let (x, (e, _)) = first_active-exists (k + 1) s rs c in
    rw b at v ∙ next_from-some k (k + 1) (first_active (s ∷ rs)) x e

-- Retiring all and adding the next version keeps the versions consecutive.
Consecutive-next :
    (k : ℕ) (rs : List PolicyRow) (new : PolicyRow)
    → Consecutive k rs
    → new.version ≡ next_from k (first_active rs)
    → new.active ≡ true
    → Consecutive k (map retire rs ++ new ∷ [])
Consecutive-next k [] new c v a = (v, a)
Consecutive-next k (r ∷ []) new (w, b) v a = (w, (refl, (rw b at v ∙ ap (λ n. n + 1) w, a)))
Consecutive-next k (r ∷ s ∷ rs) new (w, (b, c)) v a =
    (w, (refl, Consecutive-next (k + 1) (s ∷ rs) new c (later_version k r s rs new w b c v) a))

history-deactivate_same :
    (t : String) (rows : List PolicyRow)
    → history t (deactivate t rows) ≡ map retire (history t rows)
unfolding deactivate
history-deactivate_same t [] = refl
history-deactivate_same t (r ∷ rs) = elim (Bool-cases (str_eq r.tenant_id t)) [
  | inl mine ↦ rw (deactivate, mine, mine) (ap (λ xs. retire r ∷ xs) (history-deactivate_same t rs))
  | inr other ↦ rw (deactivate, other, other) (history-deactivate_same t rs)
]

history-deactivate_other :
    (t u : String) (rows : List PolicyRow)
    → str_eq t u ≡ false
    → history u (deactivate t rows) ≡ history u rows
unfolding deactivate
history-deactivate_other t u [] other = refl
history-deactivate_other t u (r ∷ rs) other = elim (Bool-cases (str_eq r.tenant_id t)) [
  | inl mine ↦
      let not_u : str_eq r.tenant_id u ≡ false =
        subst (λ x. str_eq x u ≡ false) (sym ((eq_iff r.tenant_id t).0 mine)) other in
      rw (deactivate, mine, not_u) (history-deactivate_other t u rs other)
  | inr mine ↦ elim (Bool-cases (str_eq r.tenant_id u)) [
    | inl his ↦
        rw (deactivate, mine, his) (ap (λ xs. r ∷ xs) (history-deactivate_other t u rs other))
    | inr not_his ↦ rw (deactivate, mine, not_his) (history-deactivate_other t u rs other)
  ]
]

-- What a publication does to the rows.
pub WellVersioned-next :
    (t : String) (rows : List PolicyRow) (new : PolicyRow)
    → WellVersioned rows
    → new.tenant_id ≡ t
    → new.version ≡ next_from 1 (active_row t rows)
    → new.active ≡ true
    → WellVersioned (deactivate t rows ++ new ∷ [])
unfolding active_row
WellVersioned-next t rows new ok mine v a u =
    subst (Consecutive 1)
      (sym (keep-append (λ (r : PolicyRow). str_eq r.tenant_id u) (deactivate t rows) (new ∷ [])))
      (elim (Bool-cases (str_eq new.tenant_id u)) [
        | inl same ↦ rw same (
            subst (λ x. Consecutive 1 (history x (deactivate t rows) ++ new ∷ []))
              (sym mine ∙ (eq_iff new.tenant_id u).0 same)
              (rw (history-deactivate_same t rows)
                (Consecutive-next 1 (history t rows) new (ok t) v a)))
        | inr other ↦ rw other (
            subst (Consecutive 1)
              (sym (history-deactivate_other t u rows (subst (λ x. str_eq x u ≡ false) mine other))
                ∙ sym (append-nil _))
              (ok u))
      ])

picked : (b : Bool) (x r : PolicyRow) → b ≡ true → (if b then some x else none) ≡ some r → x ≡ r
picked true x r h e = some-injective _ _ e
picked false x r h e = absurd (ground arith)

earlier : (v w : ℕ) → v < w → (v == w) ≡ false
earlier v w h = ground arith

-- The active row is the one that its version finds.
first_version-first_active :
    (k : ℕ) (rs : List PolicyRow) (r : PolicyRow)
    → Consecutive k rs
    → first_active rs ≡ some r
    → (first_version r.version rs ≡ some r) × (k ≤ r.version)
first_version-first_active k [] r c e = absurd (ground arith)
first_version-first_active k (x ∷ []) r (v, a) e =
    let same : x ≡ r = picked x.active x r a e in
    subst (λ y. (first_version y.version (x ∷ []) ≡ some y) × (k ≤ y.version)) same
      (rw (==_refl x.version) refl, omega (arith, v))
first_version-first_active k (x ∷ y ∷ rs) r (v, (a, c)) e =
    let (found, le) = first_version-first_active (k + 1) (y ∷ rs) r c (rw a at e) in
    (rw (earlier x.version r.version (omega (arith, v, le))) found, omega (arith, le))

-- The active row of a tenant is the row of its version.
pub version_row-active_row :
    (t : String) (rows : List PolicyRow) (r : PolicyRow)
    → WellVersioned rows
    → active_row t rows ≡ some r
    → version_row t r.version rows ≡ some r
unfolding active_row version_row
version_row-active_row t rows r ok e = (first_version-first_active 1 (history t rows) r (ok t) e).0

first_active-retired :
    (rs : List PolicyRow) (new : PolicyRow)
    → new.active ≡ true
    → first_active (map retire rs ++ new ∷ []) ≡ some new
first_active-retired [] new a = if_true new.active (some new) none a
first_active-retired (r ∷ rs) new a = first_active-retired rs new a

-- After a publication, the tenant's active row is the new one.
pub active_row-next :
    (t : String) (rows : List PolicyRow) (new : PolicyRow)
    → new.tenant_id ≡ t
    → new.active ≡ true
    → active_row t (deactivate t rows ++ new ∷ []) ≡ some new
unfolding active_row
active_row-next t rows new mine a =
    ap first_active (
      keep-append (λ (r : PolicyRow). str_eq r.tenant_id t) (deactivate t rows) (new ∷ [])
      ∙ ap (λ xs. xs ++ history t (new ∷ [])) (history-deactivate_same t rows)
      ∙ ap (λ xs. map retire (history t rows) ++ xs)
          (if_true (str_eq new.tenant_id t) (new ∷ []) [] ((eq_iff new.tenant_id t).1 mine)))
    ∙ first_active-retired (history t rows) new a
