-- ===== src/Check/Detection.antt =====
-- `Tier` and `Finding` of gateway/contracts/types.py, with the confidence in hundredths.
use zero_trace.Prelude.{ℕ, String, Bool, not, Option, none, some, ltb, leb, str_eq, if◌then◌else◌}
use zero_trace.Policy.{Leg}

pub data Tier : Type 0 where
  cache deterministic context semantic : Tier

abbrev pub rank : Tier → ℕ
rank cache = 0
rank deterministic = 1
rank context = 2
rank semantic = 3

-- `_STAGE_OF`
abbrev pub stage_of : Tier → String
stage_of cache = "S0"
stage_of deterministic = "S0"
stage_of context = "S1"
stage_of semantic = "S2"

-- `_TIER_OF.get(stage, tier)`
abbrev pub tier_of : String → Tier → Tier
tier_of stage tier =
    if str_eq stage "S0"
    then deterministic
    else if str_eq stage "S1"
    then context
    else if str_eq stage "S2"
    then semantic
    else if str_eq stage "S3"
    then semantic
    else tier

pub record Detection : Type 0 where
  pub span_path : String
  pub start : ℕ
  pub end : ℕ
  pub entity_class : String
  pub confidence : ℕ
  pub leg : Leg
  pub detector_id : Option ℕ
  pub detector_name : String
  pub stage : String
  pub tier : Tier
  pub advisory_only : Bool

-- The part of `__post_init__` that keeps `stage` and `tier` consistent.
unfoldable pub settled : Detection → Detection
settled f =
    if str_eq f.stage ""
    then record f { stage = stage_of f.tier }
    else if str_eq f.stage (stage_of f.tier)
    then f
    else record f { tier = tier_of f.stage f.tier }

-- The ValueErrors of `__post_init__`, then its settling; none is a ValueError. An offset is never
-- negative here, and a class is one of the enumeration's.
unfoldable pub new_finding : Detection → Option Detection
unfolding settled
new_finding f =
    if not (leb f.confidence 100)
    then none
    else if ltb f.end f.start
    then none
    else some (settled f)
