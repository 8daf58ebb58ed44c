-- ===== src/Gate/Masking.antt =====
-- Control-DB/zerotrace/gateway/redact.py: `apply` and `verify_dispatch`.
use zero_trace.Prelude.{
  ℕ, zero, suc, String, Bool, true, false, Option, none, some, List, [], ◌∷◌, ◌++◌, leb, codes,
  length, if◌then◌else◌,
}
use zero_trace.Policy.{Action, allow, warn, tokenize, mask, block, Finding}
use zero_trace.Policy.Decide.{Decision}
use zero_trace.Gate.Node.{Node, text, text_eq, walk_strings}
use zero_trace.Gate.Paths.{get, set_}

-- `mode` of the effective policy.
pub data Mode : Type 0 where
  shadow enforce : Mode

pub record AppliedEdit : Type 0 where
  pub span_path : String
  pub original : List ℕ
  pub replacement : List ℕ
  pub decision_action : Action
  pub applied_action : Action

-- The reasons of `degrade_reasons`.
pub data Reason : Type 0 where
  tokenize_needs_vault redaction_span_missing : Reason

pub record RedactionResult : Type 0 where
  pub payload : Node
  pub edits : List AppliedEdit
  pub degrade_reasons : List Reason
  pub misses : List String

-- `min(max(n, 1), 32)`
abbrev pub mask_length : ℕ → ℕ
mask_length zero = 1
mask_length (suc n) = if leb (suc n) 32 then suc n else 32

abbrev pub bars : ℕ → List ℕ
bars zero = []
bars (suc n) = 9608 ∷ bars n

-- `mask_text`
unfoldable pub mask_text : List ℕ → List ℕ
mask_text value = bars (mask_length (length value))

abbrev pub block_notice : List ℕ
block_notice = codes "[ZeroTrace: blocked by policy]"

-- `_redact_node` on a text. `apply` passes it nothing else, so its branches for lists, dicts and
-- other values are never reached.
unfoldable pub replacement_of : Action → List ℕ → List ℕ
unfolding mask_text
replacement_of block s = block_notice
replacement_of a s = mask_text s

-- The action that is applied, and whether it is a degradation.
abbrev pub applied_as : Action → Action
applied_as tokenize = mask
applied_as a = a

abbrev pub passes : Action → Bool
passes allow = true
passes warn = true
passes _ = false

abbrev note_tokenize : Action → List Reason → List Reason
note_tokenize tokenize rs = rs ++ tokenize_needs_vault ∷ []
note_tokenize a rs = rs

-- `py_str` is Python's `str` of a value that is not a text.
module _ (py_str : Node → List ℕ) where
  abbrev pub original_text : Node → List ℕ
  original_text (text s) = s
  original_text n = py_str n

  -- The edit, where the value was found and `set_` has replaced it.
  abbrev pub edited : Finding → Action → Node → Node → RedactionResult → RedactionResult
  edited f a original payload r = record {
    payload = payload;
    edits =
        r.edits
        ++ record {
          span_path = f.span_path;
          original = original_text original;
          replacement = replacement_of (applied_as a) (original_text original);
          decision_action = a;
          applied_action = applied_as a;
        }
          ∷ [];
    degrade_reasons = note_tokenize a r.degrade_reasons;
    misses = r.misses;
  }

  abbrev missed : Finding → Action → RedactionResult → RedactionResult
  missed f a r = record r {
    degrade_reasons = note_tokenize a r.degrade_reasons ++ redaction_span_missing ∷ [];
    misses = r.misses ++ f.span_path ∷ [];
  }

  -- One iteration of the loop of `apply`. `set_` succeeds where `get` has.
  unfoldable pub apply_one : Finding → Decision → RedactionResult → RedactionResult
  unfolding replacement_of
  apply_one f d r = if passes d.action then r else elim (get r.payload f.span_path) [
    | none ↦ missed f d.action r
    | some original ↦
        elim (set_ r.payload f.span_path
          (text (replacement_of (applied_as d.action) (original_text original)))) [
            | none ↦ missed f d.action r
            | some payload ↦ edited f d.action original payload r
          ]
  ]

  unfoldable pub apply_all : List (Finding × Decision) → RedactionResult → RedactionResult
  unfolding apply_one
  apply_all [] r = r
  apply_all ((f, d) ∷ pairs) r = apply_all pairs (apply_one f d r)

  unfoldable pub apply : Mode → Node → List (Finding × Decision) → RedactionResult
  unfolding apply_all
  apply shadow payload pairs = record {
    payload = payload;
    edits = [];
    degrade_reasons = [];
    misses = [];
  }
  apply enforce payload pairs =
      apply_all pairs (record { payload = payload; edits = []; degrade_reasons = []; misses = [] })

-- Whether the value at the edit's path is its replacement.
unfoldable pub holds_replacement : Node → AppliedEdit → Bool
holds_replacement body e = elim (get body e.span_path) [
  | none ↦ false
  | some (text s) ↦ text_eq s e.replacement
  | some _ ↦ false
]

unfoldable pub misplaced : Node → List AppliedEdit → List String
unfolding holds_replacement
misplaced body [] = []
misplaced body (e ∷ es) =
    let rest = misplaced body es in if holds_replacement body e then rest else e.span_path ∷ rest

-- The edits whose original is this text.
unfoldable pub survivors_of : List ℕ → List AppliedEdit → List String
survivors_of s [] = []
survivors_of s (e ∷ es) =
    let rest = survivors_of s es in if text_eq s e.original then e.span_path ∷ rest else rest

unfoldable pub survivors : List (List ℕ) → List AppliedEdit → List String
unfolding survivors_of
survivors [] es = []
survivors (s ∷ ss) es = survivors_of s es ++ survivors ss es

unfoldable pub failures_of : Node → List AppliedEdit → List String
unfolding misplaced survivors walk_strings
failures_of body es = elim (misplaced body es) [
  | [] ↦ survivors (walk_strings body) es
  | p ∷ ps ↦ p ∷ ps
]

abbrev span_paths : List AppliedEdit → List String
span_paths [] = []
span_paths (e ∷ es) = e.span_path ∷ span_paths es

-- `loads` is the decoding of the bytes and `json.loads`.
unfoldable pub verify_dispatch : (List ℕ → Option Node) → List ℕ → List AppliedEdit → List String
unfolding failures_of
verify_dispatch loads bytes [] = []
verify_dispatch loads bytes (e ∷ es) = elim (loads bytes) [
  | none ↦ span_paths (e ∷ es)
  | some body ↦ failures_of body (e ∷ es)
]
