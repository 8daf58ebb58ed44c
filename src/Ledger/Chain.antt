-- ===== src/Ledger/Chain.antt =====
-- `Record`, the in-memory store and `Ledger` of gateway/ledger/chain.py.
use zero_trace.Prelude.{
  ℕ, ◌+◌, String, not, Option, none, some, List, [], ◌∷◌, ◌++◌, ◌==◌, str_eq, if◌then◌else◌,
}
use zero_trace.Ledger.Json.{Fields, Segment, assert_safe}
use zero_trace.Ledger.Hashing.{Hashing}

-- What `verify` returns, or the LedgerTampering that it raises: the id and which test failed.
pub data Verified : Type 0 where
  verified : ℕ → Verified
  gap_or_reorder prev_mismatch hash_mismatch : ℕ → Verified

module _ (h : Hashing) where
  open h use {Byte, bytes_eq, sha256, utf8, canonical_json}

  pub record Record : Type 0 where
    pub id : ℕ
    pub tenant_id : String
    pub event_type : String
    pub payload : Fields
    pub ts : String
    pub prev_hash : List Byte
    pub record_hash : List Byte

  abbrev pub genesis : String → List Byte
  genesis tenant_id = sha256 (utf8 tenant_id ++ utf8 "zerotrace-genesis")

  -- `Record.hash_for`
  unfoldable pub hash_for : String → String → Fields → String → List Byte → List Byte
  hash_for tenant_id event_type payload ts prev =
      sha256 (prev ++ canonical_json tenant_id event_type payload ts)

  -- `InMemoryLedgerStore._rows`
  abbrev pub Store : Type 0
  Store = List (String × List Record)

  -- `self._rows.get(tenant_id, ())`
  unfoldable pub read : String → Store → List Record
  read t [] = []
  read t ((u, rows) ∷ s) = if str_eq u t then rows else read t s

  -- `self._rows.setdefault(record.tenant_id, []).append(record)`
  unfoldable pub put : Record → Store → Store
  put r [] = (r.tenant_id, r ∷ []) ∷ []
  put r ((u, rows) ∷ s) =
      if str_eq u r.tenant_id then (u, rows ++ r ∷ []) ∷ s else (u, rows) ∷ put r s

  abbrev pub last_row : List Record → Option Record
  last_row [] = none
  last_row (r ∷ []) = some r
  last_row (r ∷ s ∷ rs) = last_row (s ∷ rs)

  abbrev pub head_of : Option Record → Option (ℕ × List Byte)
  head_of none = none
  head_of (some r) = some (r.id, r.record_hash)

  -- `head`: the last id and its hash.
  abbrev pub head : String → Store → Option (ℕ × List Byte)
  head t s = head_of (last_row (read t s))

  pub data Appended : Type 0 where
    appended : Record → Store → Appended
    unsafe : List Segment → Appended

  -- The record that `append` builds on a head.
  unfoldable pub build : String → String → Fields → String → Option (ℕ × List Byte) → Record
  unfolding hash_for
  build tenant_id event_type payload ts none = record {
    id = 1;
    tenant_id = tenant_id;
    event_type = event_type;
    payload = payload;
    ts = ts;
    prev_hash = genesis tenant_id;
    record_hash = hash_for tenant_id event_type payload ts (genesis tenant_id);
  }
  build tenant_id event_type payload ts (some (id, prev)) = record {
    id = id + 1;
    tenant_id = tenant_id;
    event_type = event_type;
    payload = payload;
    ts = ts;
    prev_hash = prev;
    record_hash = hash_for tenant_id event_type payload ts prev;
  }

  -- `Ledger.append`, with `ts` the clock's answer. The tenant's lock is held from the guard on, so
  -- the whole call is one step.
  unfoldable pub append : (String → String) → String → String → Fields → String → Store → Appended
  append lower tenant_id event_type payload ts store = elim (assert_safe lower payload []) [
    | some place ↦ unsafe place
    | none ↦
        let r = build tenant_id event_type payload ts (head tenant_id store) in
        appended r (put r store)
  ]

  -- The loop of `verify`.
  unfoldable pub walk : ℕ → List Byte → ℕ → List Record → Verified
  unfolding hash_for
  walk expect_id prev n [] = verified n
  walk expect_id prev n (r ∷ rs) =
      let digest = hash_for r.tenant_id r.event_type r.payload r.ts prev in
      let rest = walk (expect_id + 1) digest (n + 1) rs in
      if not (r.id == expect_id)
      then gap_or_reorder r.id
      else if not (bytes_eq r.prev_hash prev)
      then prev_mismatch r.id
      else if not (bytes_eq digest r.record_hash)
      then hash_mismatch r.id
      else rest

  unfoldable pub verify : String → Store → Verified
  unfolding read walk
  verify tenant_id store = walk 1 (genesis tenant_id) 0 (read tenant_id store)
