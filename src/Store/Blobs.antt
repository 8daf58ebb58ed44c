-- ===== src/Store/Blobs.antt =====
-- `PolicyCache` of Control-DB/zerotrace/policy/store.py. A key is a tenant and a version; the clock
-- is in milliseconds.
use zero_trace.Prelude.{
  ℕ, ◌-◌, String, Bool, true, false, not, ◌&&◌, Option, none, some, List, [], ◌∷◌, ◌==◌, ltb,
  str_eq, keep, if◌then◌else◌,
}

pub record Entry : Type 0 where
  pub tenant_id : String
  pub version : ℕ
  pub blob : String

-- `server` is what Redis holds; the client keeps no copy of it.
pub record PolicyCache : Type 0 where
  pub local : List Entry
  pub server : List Entry
  pub connected : Bool
  pub tried : Bool
  pub degraded : Bool
  pub last_probe : ℕ

-- The surroundings of one operation: whether a URL is set, a ping succeeds and an operation of a
-- client that is connected succeeds, and the clock.
pub record Redis : Type 0 where
  pub configured : Bool
  pub reachable : Bool
  pub answers : Bool
  pub now : ℕ

abbrev pub same_key : String → ℕ → Entry → Bool
same_key t v e = str_eq e.tenant_id t && (e.version == v)

abbrev pub lookup : String → ℕ → List Entry → Option String
lookup t v [] = none
lookup t v (e ∷ es) = if same_key t v e then some e.blob else lookup t v es

abbrev pub store : String → ℕ → String → List Entry → List Entry
store t v blob es =
    record { tenant_id = t; version = v; blob = blob } ∷ keep (λ e. not (same_key t v e)) es

-- `_probe`
unfoldable pub probe : Redis → PolicyCache → PolicyCache
probe r c =
    if not r.configured
    then record c { connected = false; tried = true; degraded = false; last_probe = r.now }
    else if r.reachable
    then record c { connected = true; tried = true; degraded = false; last_probe = r.now }
    else record c { connected = false; tried = true; degraded = true; last_probe = r.now }

-- `_client`: the cache after it; it is connected where the source returns a client.
unfoldable pub client : Redis → PolicyCache → PolicyCache
unfolding probe
client r c =
    if c.connected
    then c
    else if c.tried && not c.degraded
    then c
    else if ltb (r.now - c.last_probe) 5000
    then c
    else probe r c

abbrev mark_degraded : PolicyCache → PolicyCache
mark_degraded c = record c { connected = false; degraded = true }

unfoldable pub get_with : Redis → String → ℕ → PolicyCache → Option String × PolicyCache
get_with r t v c =
    if c.connected
    then (if r.answers then (lookup t v c.server, c) else (lookup t v c.local, mark_degraded c))
    else (lookup t v c.local, c)

-- `PolicyCache.get`
unfoldable pub get : Redis → String → ℕ → PolicyCache → Option String × PolicyCache
unfolding client get_with
get r t v c = get_with r t v (client r c)

unfoldable pub set_with : Redis → String → ℕ → String → PolicyCache → PolicyCache
set_with r t v blob c =
    if c.connected
    then (if r.answers
        then record c { server = store t v blob c.server; local = store t v blob c.local }
        else record (mark_degraded c) { local = store t v blob c.local })
    else record c { local = store t v blob c.local }

-- `PolicyCache.set`
unfoldable pub set : Redis → String → ℕ → String → PolicyCache → PolicyCache
unfolding client set_with
set r t v blob c = set_with r t v blob (client r c)

-- `PolicyCache.invalidate`
unfoldable pub invalidate : String → PolicyCache → PolicyCache
invalidate t c = record c { local = keep (λ (e : Entry). not (str_eq e.tenant_id t)) c.local }

unfoldable pub close : PolicyCache → PolicyCache
close c = record {
  local = [];
  server = c.server;
  connected = false;
  tried = false;
  degraded = false;
  last_probe = 0;
}

-- `degrade_reason`
unfoldable pub degrade_reason : PolicyCache → Option String
degrade_reason c = if c.degraded then some "policy_cache_local" else none
