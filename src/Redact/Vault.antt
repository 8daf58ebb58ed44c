-- ===== src/Redact/Vault.antt =====
-- gateway/vault/derive.py, and NEVER_TOKENIZE of gateway/contracts/entity_classes.py. An entity class
-- is its name.
use zero_trace.Prelude.{
  ℕ, ◌+◌, ◌/◌, String, Bool, Option, none, some, List, [], ◌∷◌, ◌++◌, str_eq, ◌==◌, contains, codes,
  keep, take, not, if◌then◌else◌,
}

-- What the module uses of Python's text methods, and of `hmac` and `base64`.
pub record TextOps : Type 0 where
  pub strip : List ℕ → List ℕ
  pub lower : List ℕ → List ℕ
  pub upper : List ℕ → List ℕ
  pub split : List ℕ → List (List ℕ)
  pub is_digit : ℕ → Bool
  -- `base64.b32encode(hmac(key, message)).lower()`
  pub mac_text : List ℕ → List ℕ → List ℕ

abbrev pub never_tokenize : List String
never_tokenize =
    "ANTHROPIC_KEY" ∷ "OPENAI_KEY" ∷ "GITHUB_TOKEN" ∷ "AWS_ACCESS_KEY" ∷ "AWS_SECRET_KEY"
    ∷ "GOOGLE_API_KEY" ∷ "SLACK_TOKEN" ∷ "STRIPE_KEY" ∷ "RAZORPAY_KEY" ∷ "JWT" ∷ "PRIVATE_KEY"
    ∷ "SSH_PRIVATE_KEY" ∷ "DB_URI" ∷ "GENERIC_SECRET" ∷ []

abbrev shape_preserving : List String
shape_preserving =
    "PAN" ∷ "AADHAAR" ∷ "CREDIT_CARD" ∷ "PHONE" ∷ "DATE_OF_BIRTH" ∷ "IFSC" ∷ "GSTIN" ∷ "IBAN" ∷ []

unfoldable pub shape_preserving_pending : String → Bool
shape_preserving_pending c = contains c shape_preserving

-- `" ".join(words)`
abbrev join_words : List (List ℕ) → List ℕ
join_words [] = []
join_words (w ∷ []) = w
join_words (w ∷ v ∷ ws) = w ++ (b' ' ∷ join_words (v ∷ ws))

module _ (ops : TextOps) where
  open ops use {strip, lower, upper, split, is_digit, mac_text}

  unfoldable pub normalise_value : String → List ℕ → List ℕ
  normalise_value c value =
      let v = strip value in
      if contains c ("EMAIL" ∷ "UPI_VPA" ∷ [])
      then lower v
      else if contains c ("PAN" ∷ "IFSC" ∷ "GSTIN" ∷ "IBAN" ∷ [])
      then keep (λ x. not (x == b'-')) (keep (λ x. not (x == b' ')) (upper v))
      else if contains c ("AADHAAR" ∷ "CREDIT_CARD" ∷ "PHONE" ∷ [])
      then keep is_digit v
      else if contains c ("PERSON" ∷ "ORG" ∷ "GPE" ∷ [])
      then join_words (split (lower v))
      else v

  -- `extra_bits // 5` more characters of the MAC's text.
  unfoldable pub format_token : String → List ℕ → ℕ → List ℕ
  format_token c mac extra_bits =
      let suffix = take (3 + extra_bits / 5) mac in
      if str_eq c "EMAIL"
      then codes "⟨EMAIL_" ++ (suffix ++ codes "⟩@example.invalid")
      else codes "⟨" ++ (codes c ++ (codes "_" ++ (suffix ++ codes "⟩")))

  -- none is CredentialNeverTokenized.
  unfoldable pub derive_token : List ℕ → List ℕ → String → List ℕ → ℕ → Option (List ℕ)
  unfolding normalise_value format_token
  derive_token tenant_key scope_key c value extra_bits =
      if contains c never_tokenize
      then none
      else some (
          format_token c
            (mac_text tenant_key
              (scope_key ++ (codes "|" ++ (codes c ++ (codes "|" ++ normalise_value c value)))))
            extra_bits)
