-- ===== src/Ledger/Hashing.antt =====
-- What the ledgers take from outside the repository: `hashlib.sha256`, the UTF-8 encoding of texts
-- and `json.dumps`, with the documented behaviour that the proofs rest on.
use zero_trace.Prelude.{ℕ, String, ◌≡◌, ◌↔◌, Bool, true, List, length}
use zero_trace.Ledger.Json.{Fields}

-- Digests are kept as bytes; the program keeps the hexadecimal text that spells them.
pub record Hashing : Type 1 where
  pub Byte : Type 0
  pub bytes_eq : List Byte → List Byte → Bool
  pub bytes_eq_iff : (a b : List Byte) → (bytes_eq a b ≡ true) ↔ (a ≡ b)
  pub sha256 : List Byte → List Byte
  -- Every digest has one length.
  pub width : ℕ
  pub length-sha256 : (x : List Byte) → length (sha256 x) ≡ width
  pub utf8 : String → List Byte
  -- `canonical_json` of a record's body: tenant, event type, payload and timestamp.
  pub canonical_json : String → String → Fields → String → List Byte
