-- ===== src/Ledger/Json.antt =====
-- JSON payloads, and the guard `_assert_safe` of gateway/ledger/chain.py that keeps fields which
-- could hold a raw value out of a record.
use zero_trace.Prelude.{
  ℕ, ◌+◌, String, Bool, Option, none, some, List, [], ◌∷◌, ◌++◌, contains, if◌then◌else◌,
}

-- A Python value that `json.dumps` takes. A dict is its list of entries, in order; a float is its
-- printed text.
mutual
  pub data Json : Type 0 where
    null : Json
    boolean : Bool → Json
    integer : ℕ → Json
    number : String → Json
    text : String → Json
    array : Items → Json
    object : Fields → Json

  pub data Items : Type 0 where
    done : Items
    item : Json → Items → Items

  pub data Fields : Type 0 where
    end : Fields
    field : String → Json → Fields → Fields

-- `_FORBIDDEN_KEYS`
abbrev pub forbidden_keys : List String
forbidden_keys =
    "text" ∷ "value" ∷ "content" ∷ "span_text" ∷ "raw" ∷ "original" ∷ "sample" ∷ "secret"
    ∷ "plaintext" ∷ "body" ∷ []

unfoldable pub is_forbidden : String → Bool
is_forbidden k = contains k forbidden_keys

-- The place that an UnsafeLedgerPayload names: `a.b[3].c`.
pub data Segment : Type 0 where
  key : String → Segment
  index : ℕ → Segment

abbrev pub first_of_two {ℓ} : {A : Type ℓ} → Option A → Option A → Option A
first_of_two none b = b
first_of_two (some a) b = some a

-- `lower` is Python's `str.lower`.
module _ (lower : String → String) where
  unfoldable mutual
    -- `_assert_safe`: none, or the first offending place. A list is searched for dicts only: what a
    -- list inside a list holds is not looked at.
    pub assert_safe : Fields → List Segment → Option (List Segment)
    assert_safe end path = none
    assert_safe (field k v rest) path =
        let here = path ++ key k ∷ [] in
        if is_forbidden (lower k)
        then some here
        else first_of_two (assert_safe_value v here) (assert_safe rest path)

    pub assert_safe_value : Json → List Segment → Option (List Segment)
    assert_safe_value (object fs) here = assert_safe fs here
    assert_safe_value (array xs) here = assert_safe_items xs 0 here
    assert_safe_value _ here = none

    pub assert_safe_items : Items → ℕ → List Segment → Option (List Segment)
    assert_safe_items done i here = none
    assert_safe_items (item v rest) i here =
        first_of_two (assert_safe_item v (here ++ index i ∷ []))
          (assert_safe_items rest (i + 1) here)

    -- `if isinstance(item, dict)`
    pub assert_safe_item : Json → List Segment → Option (List Segment)
    assert_safe_item (object fs) here = assert_safe fs here
    assert_safe_item _ here = none
