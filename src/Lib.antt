-- ===== src/Lib.antt =====
-- The core of ZeroTrace, a gateway that inspects requests to language models, redacts what an
-- organisation's policy names, and records what it did.
--
-- A request becomes a tree of spans (Spans). Detectors find entities in each span (India). For each
-- finding, the policy of the organisation and of the business unit decides an action (Policy). Under
-- an action that redacts, a plan of edits is made, applied to the tree and checked against the bytes
-- that go out (Redact). What happened is appended to a hash chain per tenant (Ledger).
--
-- Files:
--   Prelude   lists, options and Boolean tests over the native numbers, text search.
--   Policy    Control-DB/zerotrace/policy/schema.py and engine.py. Matching is `_rule_matches`,
--             `_clearance_applies` and `_last_match`; Decide is `decide`, each of its stages a
--             function on the local variables (`Progress`), with `decide_all` and
--             `overall_action`; Publish is `check_bu_may_only_raise`.
--   Ledger    gateway/ledger/chain.py. Json is the payload and `_assert_safe`; Hashing is what comes
--             from hashlib and json; Chain is `Record`, `InMemoryLedgerStore`, `Ledger.append` and
--             `Ledger.verify`.
--   Chains    Control-DB/zerotrace/ledger: Records is records.py, Fields is `model_dump` and
--             `payload.get`, Rows is `append`, Bindings and Roots are the checks across chains, with
--             policy rows and tenants, Verify is `_walk_chain` and `verify`. The ledger table is
--             the list of its rows in the order of their ids.
--   Store     Control-DB/zerotrace/policy: Documents is the parsing of schema.py and the stored YAML,
--             Blobs is `PolicyCache` with the state of Redis, Rows is the table, Load and Publish are
--             the loads, `publish` and `rollback_to` of store.py, Exceptions is exceptions.py.
--   Cache     gateway/base/cache.py: `InMemorySpanCache`, its entries from the oldest to the newest.
--   Gate      Control-DB/zerotrace/gateway: the request path. Paths is spans/paths.py on decoded bodies
--             (Node); Masking is redact.py; Evidence, Headers and Handler are routes_dataplane.py, one
--             function for each stage of `messages`; Protocol is what a request promises, as a step
--             relation on its events.
--   India     gateway/detectors/india_id.py. Verhoeff and Gstin are the check digits; Detectors is the
--             `confirm` method of each detector.
--   Scan      gateway/base/scanner.py: Dedupe is `_dedupe`, Chunks is the loop of `_scan_chunked`, with
--             the scan of one chunk as a parameter. Confidences are in hundredths.
--   Check     gateway/base/checker.py: Detection is `Finding` with its validation, Loop is `Checker`,
--             on the spans and `total_chars` of Spans.
--   Identity  Control-DB/zerotrace/identity/resolve.py: Callers has its rows, actors and requests,
--             Resolve is `resolve` with its rungs.
--   Lock      Control-DB/zerotrace/store/kv.py: Leases is `MemoryKV.acquire` and `release`.
--   Risk      gateway/base/risk.py: Signals is `Signals`, `score`, `band` and `SessionRisk.observe`.
--             Counters are in thousandths and exact, and the decay's factor is a parameter.
--   Spans     gateway/spans/model.py. Tree is `SpanTree`, CharEdits is `_apply_char_edits`, Splice is
--             the byte splicing in `serialise`.
--   Redact    gateway/redact.py and gateway/vault/derive.py. Vault is the token derivation, Plan is
--             `plan_redaction` and `apply_redaction`, Dispatch is `verify_dispatch`.
--
-- A text in which positions count is the list of its code points; a name or a path is a String. A
-- digest is a list of bytes. An exception is a value of a result type of the component. The clock's
-- answer is an argument. A tenant's lock is held over the whole of `append`, so an append is one
-- step. What other requests commit while one waits for the upstream is a parameter. Loops are
-- structural recursion, except `_root_tenant` and `_root_tenant_id`, which run on fuel of one more
-- than the number of tenants: each step passes a tenant that it has not passed before; and the chunk
-- loop, on fuel of the text's length, where each step advances by at least one.
--
-- Not modelled: regular expressions (a detector's candidate pattern), HMAC and SHA-256 (parameters),
-- the reading of YAML and JSON, which are parameters, files, sockets, the SQL of the database, and
-- the web application.
pub mod Prelude
pub mod Policy
pub mod Ledger
pub mod India
pub mod Spans
pub mod Redact
pub mod Chains
pub mod Scan
pub mod Cache
pub mod Gate
pub mod Store
pub mod Check
pub mod Identity
pub mod Lock
pub mod Risk
