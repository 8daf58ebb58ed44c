-- ===== src/Chains/Anchored.antt =====
-- The anchor that `append` of Control-DB/zerotrace/ledger/chain.py writes passes its check.
use mathlib.Core.Path.{subst}
use mathlib.Core.List.{append-nil}
use zero_trace.Prelude.{
  ℕ, ◌≤◌, ◌<◌, String, ◌≡◌, refl, sym, ap, ◌∙◌, true, Option, none, some, List, [], ◌∷◌, ◌++◌,
  arith, length, All, keep-append, contains, ltb, ◌&&◌, str_eq, str_eq_refl, eq_iff, inl, inr,
}
use zero_trace.Ledger.Json.{text}
use zero_trace.Ledger.Hashing.{Hashing}
use zero_trace.Chains.Rows
use zero_trace.Chains.Rows.{chains, of_chain, last_of, other_chain, anchor_payload}
use zero_trace.Chains.Fields.{model_dump, get}
use zero_trace.Chains.Roots.{Parents}
use zero_trace.Chains.Bindings.{
  Policies, known_chain, named_chain_failure, cross_anchor_failure, binding_failure, others_before,
}
use zero_trace.Chains.Bound.{binding, anchor-agrees, chains-cases, other_chain-differs}

other_chain-known :
    (c : String)
    → contains c chains ≡ true
    → known_chain (text (other_chain c)) ≡ some (other_chain c)
other_chain-known c known = elim (chains-cases c known) [
  | inl e ↦ subst (λ x. known_chain (text (other_chain x)) ≡ some (other_chain x)) (sym e) refl
  | inr e ↦ subst (λ x. known_chain (text (other_chain x)) ≡ some (other_chain x)) (sym e) refl
]

module _ (h : Hashing) (hex : List h.Byte → String)
    (row_json : String → ℕ → String → List h.Byte) where
  abbrev R : Type 0
  R = Rows.Row h hex

  -- Every row of the other chain is before a row with a larger id.
  others_before-earlier :
      (d : String) (r : R) (k : ℕ) (rows : List R)
      → All (λ (x : R). x.id < k) rows
      → k ≤ r.id
      → others_before h hex row_json d r rows ≡ of_chain h hex d rows
  others_before-earlier d r k [] old le = refl
  others_before-earlier d r k (x ∷ rows) old le = ground (arith, others_before-earlier d r k rows)

  module _ (all : List R) (c : String) (main anchor : R) (known : contains c chains ≡ true)
      (main_chain : main.chain ≡ c) (anchor_chain : anchor.chain ≡ c) where
    abbrev others : List R
    others = of_chain h hex (other_chain c) all

    new_rows_apart : others_before h hex row_json (other_chain c) anchor (main ∷ anchor ∷ []) ≡ []
    new_rows_apart = ground (
      arith,
      other_chain-differs c known,
      eq_iff main.chain (other_chain c),
      eq_iff anchor.chain (other_chain c),
      eq_iff (other_chain c) c,
      main_chain,
      anchor_chain,
    )

    others_of_anchor :
        (k : ℕ)
        → All (λ (x : R). x.id < k) all
        → k ≤ anchor.id
        → others_before h hex row_json (other_chain c) anchor (all ++ main ∷ anchor ∷ []) ≡ others
    others_of_anchor k old le =
        keep-append (λ (x : R). str_eq x.chain (other_chain c) && ltb x.id anchor.id) all
          (main ∷ anchor ∷ [])
        ∙ ap (λ xs. others_before h hex row_json (other_chain c) anchor all ++ xs) new_rows_apart
        ∙ append-nil _
        ∙ others_before-earlier (other_chain c) anchor k all old le

    other_named :
        (last : Option R) (n : ℕ)
        → known_chain (get "other_chain" (model_dump (anchor_payload h hex c last n)))
          ≡ some (other_chain c)
    unfolding get model_dump anchor_payload
    other_named last n = other_chain-known c known

    chain_named :
        (last : Option R) (n : ℕ)
        → get "chain" (model_dump (anchor_payload h hex c last n)) ≡ text c
    unfolding get model_dump anchor_payload
    chain_named last n = refl

    named_agrees :
        (rows : List R)
        → named_chain_failure h hex row_json c
            (model_dump (anchor_payload h hex c (last_of h hex rows) (length rows)))
            (other_chain c)
            rows
          ≡ none
    unfolding named_chain_failure
    named_agrees rows =
        rw
          (
            other_chain-differs c known,
            chain_named (last_of h hex rows) (length rows),
            str_eq_refl c,
          )
          (anchor-agrees h hex row_json c (length rows) (last_of h hex rows))

    cross_anchor-named :
        (rows : List R)
        → known_chain (get "other_chain" anchor.payload_json) ≡ some (other_chain c)
        → cross_anchor_failure h hex row_json anchor rows
          ≡ named_chain_failure h hex row_json anchor.chain anchor.payload_json
              (other_chain c)
              (others_before h hex row_json (other_chain c) anchor rows)
    unfolding cross_anchor_failure
    cross_anchor-named rows e = rw (cross_anchor_failure, e) refl

    cross_anchor-binding :
        (policies : Policies) (tenants : Parents) (rows : List R)
        → anchor.event_type ≡ "chain.cross_anchor"
        → binding h hex row_json policies tenants anchor rows
          ≡ cross_anchor_failure h hex row_json anchor rows
    unfolding binding_failure
    cross_anchor-binding policies tenants rows event = rw (binding_failure, event) refl

    pub anchor-bound :
        (policies : Policies) (tenants : Parents) (k : ℕ)
        → All (λ (x : R). x.id < k) all
        → k ≤ anchor.id
        → anchor.event_type ≡ "chain.cross_anchor"
        → anchor.payload_json
          ≡ model_dump (anchor_payload h hex c (last_of h hex others) (length others))
        → binding h hex row_json policies tenants anchor (all ++ main ∷ anchor ∷ []) ≡ none
    anchor-bound policies tenants k old le event payload =
        let before =
          others_before h hex row_json (other_chain c) anchor (all ++ main ∷ anchor ∷ []) in
        cross_anchor-binding policies tenants (all ++ main ∷ anchor ∷ []) event
        ∙ cross_anchor-named (all ++ main ∷ anchor ∷ []) (
            ap (λ p. known_chain (get "other_chain" p)) payload
            ∙ other_named (last_of h hex others) (length others))
        ∙ ap (λ d. named_chain_failure h hex row_json d anchor.payload_json (other_chain c) before)
            anchor_chain
        ∙ ap (λ p. named_chain_failure h hex row_json c p (other_chain c) before) payload
        ∙ ap (named_chain_failure h hex row_json c _ (other_chain c)) (others_of_anchor k old le)
        ∙ named_agrees others
