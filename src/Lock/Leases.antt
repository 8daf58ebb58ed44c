-- ===== src/Lock/Leases.antt =====
-- `MemoryKV.acquire` and `release` of Control-DB/zerotrace/store/kv.py. Time is in milliseconds, and
-- the clock's answer is an argument.
use zero_trace.Prelude.{
  ℕ, ◌+◌, String, Bool, true, false, none, some, List, [], ◌∷◌, ltb, str_eq, if◌then◌else◌,
}
use zero_trace.Cache.Lru.{find, without}

-- `_locks`: for a key the token of its holder and when the hold ends.
abbrev pub Locks : Type 0
Locks = List (String × (String × ℕ))

-- `self._locks[key] = ...`
unfoldable pub hold : String → String → ℕ → Locks → Locks
unfolding without
hold key token until locks = (key, (token, until)) ∷ without key locks

-- `acquire`
unfoldable pub acquire : ℕ → String → String → ℕ → Locks → Bool × Locks
unfolding find hold
acquire now key token ttl locks = elim (find key locks) [
  | none ↦ (true, hold key token (now + ttl) locks)
  | some (holder, until) ↦
      if ltb now until then (false, locks) else (true, hold key token (now + ttl) locks)
]

-- `release`
unfoldable pub release : String → String → Locks → Locks
unfolding find without
release key token locks = elim (find key locks) [
  | none ↦ locks
  | some (holder, until) ↦ if str_eq holder token then without key locks else locks
]

-- What a writer asks of the store, and when.
pub data Command : Type 0 where
  acquires : ℕ → String → String → ℕ → Command
  releases : String → String → Command

unfoldable pub perform : Command → Locks → Locks
unfolding acquire release
perform (acquires now key token ttl) locks = (acquire now key token ttl locks).1
perform (releases key token) locks = release key token locks

-- The commands that come one after the other, as the mutex has it.
unfoldable pub run : List Command → Locks → Locks
unfolding perform
run [] locks = locks
run (c ∷ cs) locks = run cs (perform c locks)
