-- ===== src/Risk/Tests.antt =====
-- A session of noise and one that assembles a value, and the theorems at them.
use zero_trace.Prelude.{ℕ, ◌≤◌, ◌≡◌, refl, true, false, [], ◌∷◌, arith}
use zero_trace.Risk.Signals.{Signals, Call, low, high, score, band, observe_all}
use zero_trace.Risk.Quiet.{observe_all-low}
use zero_trace.Risk.Tidy.{IsTidy, observe_all-IsTidy}

abbrev keep : ℕ → ℕ → ℕ
keep elapsed v = v

abbrev new : Signals
new = record {
  fragment_calls = 0;
  repeat_appends = 0;
  entropy_runs = 0;
  blocked = 0;
  targets = [];
  updated = 0;
}

abbrev noise : Call
noise = record {
  now = 5;
  had_fragment = false;
  was_blocked = false;
  has_entropy_run = true;
  appends = [];
}

abbrev piece : Call
piece = record {
  now = 6;
  had_fragment = true;
  was_blocked = false;
  has_entropy_run = false;
  appends = "k" ∷ [];
}

assembly_is_high : band (score (observe_all keep (piece ∷ piece ∷ piece ∷ []) new)) ≡ high
unfolding band score observe_all
assembly_is_high = refl

observe_all-low_example :
    (score (observe_all keep (noise ∷ noise ∷ []) new) ≤ 20000)
    × (band (score (observe_all keep (noise ∷ noise ∷ []) new)) ≡ low)
observe_all-low_example =
    observe_all-low keep (λ elapsed v. omega arith) (noise ∷ noise ∷ []) new
      ((refl, (refl, refl)), ((refl, (refl, refl)), tt)) (refl, (refl, refl))

observe_all-IsTidy_example : IsTidy (observe_all keep (piece ∷ piece ∷ []) new).targets
observe_all-IsTidy_example = observe_all-IsTidy keep (piece ∷ piece ∷ []) new (omega arith, tt)
