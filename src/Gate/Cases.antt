-- ===== src/Gate/Cases.antt =====
-- The results that the stages of Control-DB/zerotrace/gateway/routes_dataplane.py branch on, by cases.
use zero_trace.Prelude.{ℕ, String, ◌≡◌, refl, ◌⊎◌, inl, inr, List, [], ◌∷◌}
use zero_trace.Ledger.Hashing.{Hashing}
use zero_trace.Chains.Rows
use zero_trace.Chains.Rows.{Table, Appended, appended, record_invalid}
use zero_trace.Gate.Node.{Node}
use zero_trace.Gate.Masking.{RedactionResult}
use zero_trace.Gate.Evidence.{Store, Recorded, recorded, unrecordable}
use zero_trace.Gate.Handler.{Reply, send_failed, replied, Prepared, prepared, unverifiable}

pub Recorded-cases :
    (h : Hashing) (hex : List h.Byte → String) (r : Recorded h hex)
    → (r ≡ unrecordable) ⊎ ((row : Rows.Row h hex) × (s : Store h hex) × (r ≡ recorded row s))
Recorded-cases h hex unrecordable = inl refl
Recorded-cases h hex (recorded row s) = inr (row, s, refl)

pub Appended-cases :
    (h : Hashing) (hex : List h.Byte → String) (r : Appended h hex)
    → (r ≡ record_invalid) ⊎ ((row : Rows.Row h hex) × (t : Table h hex) × (r ≡ appended row t))
Appended-cases h hex record_invalid = inl refl
Appended-cases h hex (appended row t) = inr (row, t, refl)

pub Prepared-cases :
    (p : Prepared)
    → ((spans : List String) × (p ≡ unverifiable spans))
      ⊎ ((r : RedactionResult) × (bytes : List ℕ) × (p ≡ prepared r bytes))
Prepared-cases (unverifiable spans) = inl (spans, refl)
Prepared-cases (prepared r bytes) = inr (r, bytes, refl)

pub Reply-cases :
    (r : Reply) → ((code : String) × (r ≡ send_failed code)) ⊎ ((body : Node) × (r ≡ replied body))
Reply-cases (send_failed code) = inl (code, refl)
Reply-cases (replied body) = inr (body, refl)

pub List-cases {ℓ} :
    {A : Type ℓ} (xs : List A) → (xs ≡ []) ⊎ ((x : A) × (rest : List A) × (xs ≡ x ∷ rest))
List-cases [] = inl refl
List-cases (x ∷ rest) = inr (x, rest, refl)

module _ (h : Hashing) (hex : List h.Byte → String) where
  pub unrecordable-recorded :
      (row : Rows.Row h hex) (s : Store h hex) → unrecordable ≡ recorded row s → ⊥
  unrecordable-recorded row s e = cc

  pub recorded_injective :
      (row row' : Rows.Row h hex) (s s' : Store h hex)
      → recorded row s ≡ recorded row' s'
      → (row ≡ row') × (s ≡ s')
  recorded_injective row row' s s' e = (cc, cc)
