-- ===== src/Chains/Bound.antt =====
-- The second walk of Control-DB/zerotrace/ledger/chain.py: which rows the bindings of a row read,
-- and what the anchor that `append` writes is checked against.
use mathlib.Core.Path.{subst}
use mathlib.Core.List.{append-nil}
use zero_trace.Prelude.{
  ℕ, ◌+◌, ◌≤◌, String, ◌≡◌, refl, sym, ap, ◌∙◌, true, false, Option, none, some, List, [], ◌∷◌,
  ◌++◌, arith, length, All, keep-append, ltb, ◌&&◌, str_eq, eq_iff, Option-cases, ==_refl,
  str_eq_refl, contains, inl, inr, ◌⊎◌,
}
use zero_trace.Ledger.Hashing.{Hashing}
use zero_trace.Chains.Rows
use zero_trace.Chains.Rows.{chains, of_chain, last_of, other_chain, anchor_payload}
use zero_trace.Chains.Records.{check_hash, check_payload, validate, check_anchor}
use zero_trace.Chains.Fields.{model_dump, get}
use zero_trace.Chains.Roots.{Parents}
use zero_trace.Chains.Bindings.{
  Failure, Policies, known_chain, others_before, anchor_mismatch, cross_anchor_failure,
  binding_failure,
}
use zero_trace.Chains.Verify.{clean, walk_bindings}

pub chains-cases : (c : String) → contains c chains ≡ true → (c ≡ "ctl") ⊎ (c ≡ "dp")
chains-cases c known = ground (arith, eq_iff c "ctl", eq_iff c "dp")

pub other_chain-differs : (c : String) → contains c chains ≡ true → str_eq (other_chain c) c ≡ false
other_chain-differs c known = elim (chains-cases c known) [
  | inl e ↦ subst (λ x. str_eq (other_chain x) x ≡ false) (sym e) refl
  | inr e ↦ subst (λ x. str_eq (other_chain x) x ≡ false) (sym e) refl
]

other_chain-known_name :
    (c : String) → contains c chains ≡ true → contains (other_chain c) chains ≡ true
other_chain-known_name c known = elim (chains-cases c known) [
  | inl e ↦ subst (λ x. contains (other_chain x) chains ≡ true) (sym e) refl
  | inr e ↦ subst (λ x. contains (other_chain x) chains ≡ true) (sym e) refl
]

module _ (h : Hashing) (hex : List h.Byte → String)
    (row_json : String → ℕ → String → List h.Byte) where
  abbrev R : Type 0
  R = Rows.Row h hex

  abbrev others : String → R → List R → List R
  others = others_before h hex row_json

  module _ (policies : Policies) (tenants : Parents) where
    abbrev pub binding : R → List R → Option Failure
    binding = binding_failure h hex row_json policies tenants

    abbrev pub Bound : List R → List R → Type 0
    Bound all rows = All (λ r. binding r all ≡ none) rows

    pub walk_bindings-Bound :
        (all : List R) (i : ℕ) (rows : List R) (n : ℕ)
        → walk_bindings h hex row_json policies tenants all i rows ≡ clean n
        → Bound all rows
    unfolding walk_bindings
    walk_bindings-Bound all i [] n p = tt
    walk_bindings-Bound all i (r ∷ rows) n p =
        ground (arith, walk_bindings-Bound all (i + 1) rows n)

    pub Bound-walk_bindings :
        (all : List R) (i : ℕ) (rows : List R)
        → Bound all rows
        → walk_bindings h hex row_json policies tenants all i rows ≡ clean (i + length rows)
    unfolding walk_bindings
    Bound-walk_bindings all i [] b = ground arith
    Bound-walk_bindings all i (r ∷ rows) b = ground (arith, Bound-walk_bindings all (i + 1) rows)

    -- The bindings of a row read only rows with a smaller id.
    later_others :
        (c : String) (r : R) (new : List R) → All (λ (x : R). r.id ≤ x.id) new → others c r new ≡ []
    later_others c r [] l = refl
    later_others c r (x ∷ new) l = ground (arith, later_others c r new)

    pub others-append :
        (c : String) (r : R) (all new : List R)
        → All (λ (x : R). r.id ≤ x.id) new
        → others c r (all ++ new) ≡ others c r all
    others-append c r all new l =
        keep-append (λ (x : R). str_eq x.chain c && ltb x.id r.id) all new
        ∙ ap (λ xs. others c r all ++ xs) (later_others c r new l)
        ∙ append-nil (others c r all)

    cross_anchor_failure-append :
        (r : R) (all new : List R)
        → All (λ (x : R). r.id ≤ x.id) new
        → cross_anchor_failure h hex row_json r (all ++ new)
          ≡ cross_anchor_failure h hex row_json r all
    unfolding cross_anchor_failure
    cross_anchor_failure-append r all new l =
        elim (Option-cases (known_chain (get "other_chain" r.payload_json))) [
          | inl e ↦ rw (cross_anchor_failure, e) refl
          | inr (c, e) ↦ rw (cross_anchor_failure, e, others-append c r all new l) refl
        ]

    pub binding-append :
        (r : R) (all new : List R)
        → All (λ (x : R). r.id ≤ x.id) new
        → binding r (all ++ new) ≡ binding r all
    unfolding binding_failure
    binding-append r all new l = rw (binding_failure, cross_anchor_failure-append r all new l) refl

  -- What the anchor on a chain names holds of the other chain's rows.
  pub anchor-agrees :
      (c : String) (n : ℕ) (last : Option R)
      → anchor_mismatch h hex row_json (model_dump (anchor_payload h hex c last n)) n last ≡ none
  unfolding anchor_mismatch anchor_payload model_dump get
  anchor-agrees c n none = rw (==_refl n) refl
  anchor-agrees c n (some r) = rw (==_refl n, ==_refl r.id, str_eq_refl (hex r.record_hash)) refl

  -- An anchor is a valid record: a head that there is has a hash, and then there is a row.
  anchor-valid :
      (c : String) (n : ℕ) (last : Option R)
      → contains c chains ≡ true
      → contains (other_chain c) chains ≡ true
      → str_eq (other_chain c) c ≡ false
      → ((last ≡ none) × (n ≡ 0)) ⊎ ((r : R) × (last ≡ some r) × (1 ≤ n))
      → ((r : R) → last ≡ some r → check_hash (hex r.record_hash) ≡ true)
      → validate "chain.cross_anchor" (anchor_payload h hex c last n)
        ≡ some (anchor_payload h hex c last n)
  unfolding validate check_payload check_anchor anchor_payload
  anchor-valid c n none known other differs fits hashed = rw (known, other) (ground arith)
  anchor-valid c n (some r) known other differs fits hashed =
      rw (known, other, differs, hashed r refl) (ground arith)

  last_of-length :
      (rows : List R)
      → ((last_of h hex rows ≡ none) × (length rows ≡ 0))
        ⊎ ((r : R) × (last_of h hex rows ≡ some r) × (1 ≤ length rows))
  last_of-length [] = inl (refl, refl)
  last_of-length (r ∷ []) = inr (r, refl, omega arith)
  last_of-length (r ∷ s ∷ rows) = elim (last_of-length (s ∷ rows)) [
    | inl (e, l) ↦ absurd (omega arith)
    | inr (x, e, l) ↦ inr (x, e, omega arith)
  ]

  pub validate-anchor :
      (c : String) (rows : List R)
      → contains c chains ≡ true
      → ((r : R) → last_of h hex rows ≡ some r → check_hash (hex r.record_hash) ≡ true)
      → validate "chain.cross_anchor" (anchor_payload h hex c (last_of h hex rows) (length rows))
        ≡ some (anchor_payload h hex c (last_of h hex rows) (length rows))
  validate-anchor c rows known hashed =
      anchor-valid c (length rows) (last_of h hex rows) known (other_chain-known_name c known)
        (other_chain-differs c known) (last_of-length rows) hashed
