-- ===== src/Risk/Signals.antt =====
-- `Signals`, `score`, `band` and `SessionRisk.observe` of gateway/base/risk.py, over the signals that
-- `load` gives. A counter is in thousandths and a score in hundred thousandths, both exact.
use zero_trace.Prelude.{
  ℕ, ◌+◌, ◌-◌, ◌*◌, String, Bool, true, false, List, [], ◌∷◌, ◌++◌, leb, contains, length, drop,
  if◌then◌else◌,
}

pub record Signals : Type 0 where
  pub fragment_calls : ℕ
  pub repeat_appends : ℕ
  pub entropy_runs : ℕ
  pub blocked : ℕ
  pub targets : List String
  pub updated : ℕ

pub data Band : Type 0 where
  low medium high : Band

-- What `observe` is told of a call and finds in its text: whether `_ENTROPY_RUN` matches, and the
-- digests of the targets that `_APPEND` matches.
pub record Call : Type 0 where
  pub now : ℕ
  pub had_fragment : Bool
  pub was_blocked : Bool
  pub has_entropy_run : Bool
  pub appends : List String

abbrev pub least : ℕ → ℕ → ℕ
least a b = if leb a b then a else b

-- `score`
unfoldable pub score : Signals → ℕ
score s = least 100000 (
    30 * least s.fragment_calls 4000
    + 18 * least s.repeat_appends 4000
    + 5 * least s.entropy_runs 4000
    + 25 * least s.blocked 2000)

-- `band`
unfoldable pub band : ℕ → Band
band value = if leb 75000 value then high else if leb 35000 value then medium else low

-- `del s.targets[:-8]`
unfoldable pub last_eight : List String → List String
last_eight ts = drop (length ts - 8) ts

-- The body of the loop over the targets of a text.
unfoldable pub add_target : Signals → String → Signals
unfolding last_eight
add_target s digest =
    if contains digest s.targets
    then record s { repeat_appends = s.repeat_appends + 1000 }
    else record s { targets = last_eight (s.targets ++ digest ∷ []) }

unfoldable pub append_all : Signals → List String → Signals
unfolding add_target
append_all s [] = s
append_all s (d ∷ ds) = append_all (add_target s d) ds

abbrev pub counted : Bool → ℕ → ℕ
counted true n = n + 1000
counted false n = n

-- What `observe` adds before it looks at the targets.
unfoldable pub count_call : Call → Signals → Signals
count_call c s = record s {
  fragment_calls = counted c.had_fragment s.fragment_calls;
  blocked = counted c.was_blocked s.blocked;
  entropy_runs = counted c.has_entropy_run s.entropy_runs;
}

-- `shrink` multiplies by half to the power of the elapsed time over the half life.
module _ (shrink : ℕ → ℕ → ℕ) where
  -- `Signals.decay`
  unfoldable pub decay : ℕ → Signals → Signals
  decay now s =
      if leb s.updated 0
      then record s { updated = now }
      else if leb now s.updated
      then s
      else record s {
        fragment_calls = shrink (now - s.updated) s.fragment_calls;
        repeat_appends = shrink (now - s.updated) s.repeat_appends;
        entropy_runs = shrink (now - s.updated) s.entropy_runs;
        blocked = shrink (now - s.updated) s.blocked;
        updated = now;
      }

  -- `observe`: the signals that it saves.
  unfoldable pub observe : Call → Signals → Signals
  unfolding decay count_call append_all
  observe c s = append_all (count_call c (decay c.now s)) c.appends

  -- The calls of a session.
  unfoldable pub observe_all : List Call → Signals → Signals
  unfolding observe
  observe_all [] s = s
  observe_all (c ∷ cs) s = observe_all cs (observe c s)
