-- ===== src/Risk/Quiet.antt =====
-- Noise alone does not raise the band of a session of gateway/base/risk.py.
use zero_trace.Prelude.{
  ℕ, ◌+◌, ◌*◌, ◌≤◌, ◌≡◌, false, Bool-cases, inl, inr, List, [], ◌∷◌, All, leb, arith,
}
use zero_trace.Risk.Signals.{
  Signals, Call, low, least, score, band, append_all, decay, count_call, observe, observe_all,
}

abbrev pub IsQuiet : Call → Type 0
IsQuiet c = (c.had_fragment ≡ false) × ((c.was_blocked ≡ false) × (c.appends ≡ []))

-- Nothing but long runs has been counted.
abbrev pub IsNoise : Signals → Type 0
IsNoise s = (s.fragment_calls ≡ 0) × ((s.repeat_appends ≡ 0) × (s.blocked ≡ 0))

score-noise :
    (f r e b : ℕ)
    → f ≡ 0
    → r ≡ 0
    → b ≡ 0
    → least 100000 (30 * least f 4000 + 18 * least r 4000 + 5 * least e 4000 + 25 * least b 2000)
      ≤ 20000
score-noise f r e b hf hr hb = ground arith

band-low : (v : ℕ) → v ≤ 20000 → band v ≡ low
unfolding band
band-low v h = ground arith

module _ (shrink : ℕ → ℕ → ℕ) (shrinks : (elapsed v : ℕ) → shrink elapsed v ≤ v) where
  shrink-zero : (elapsed v : ℕ) → v ≡ 0 → shrink elapsed v ≡ 0
  shrink-zero elapsed v h = ground (arith, shrinks elapsed v, h)

  decay-IsNoise : (now : ℕ) (s : Signals) → IsNoise s → IsNoise (decay shrink now s)
  unfolding decay
  decay-IsNoise now s (f, (r, b)) = elim (Bool-cases (leb s.updated 0)) [
    | inl fresh ↦ rw (decay, fresh) (f, (r, b))
    | inr old ↦ elim (Bool-cases (leb now s.updated)) [
      | inl early ↦ rw (decay, old, early) (f, (r, b))
      | inr late ↦ rw (decay, old, late) (shrink-zero _ _ f, (shrink-zero _ _ r, shrink-zero _ _ b))
    ]
  ]

  observe-IsNoise : (c : Call) (s : Signals) → IsQuiet c → IsNoise s → IsNoise (observe shrink c s)
  unfolding observe count_call append_all
  observe-IsNoise c s (hf, (hb, ha)) noise =
      let (f, (r, b)) = decay-IsNoise c.now s noise in
      rw (observe, ha, append_all, count_call, hf, hb) (f, (r, b))

  observe_all-IsNoise :
      (cs : List Call) (s : Signals)
      → All IsQuiet cs
      → IsNoise s
      → IsNoise (observe_all shrink cs s)
  unfolding observe_all
  observe_all-IsNoise [] s quiet noise = noise
  observe_all-IsNoise (c ∷ cs) s (q, quiet) noise =
      observe_all-IsNoise cs (observe shrink c s) quiet (observe-IsNoise c s q noise)

  -- As long as no call of a session has a fragment, is blocked or appends to a file, the session
  -- stays in the low band, however many long runs its texts have.
  pub observe_all-low :
      (cs : List Call) (s : Signals)
      → All IsQuiet cs
      → IsNoise s
      → (score (observe_all shrink cs s) ≤ 20000) × (band (score (observe_all shrink cs s)) ≡ low)
  unfolding score
  observe_all-low cs s quiet noise =
      let (f, (r, b)) = observe_all-IsNoise cs s quiet noise in
      let small = score-noise _ _ (observe_all shrink cs s).entropy_runs _ f r b in
      (small, band-low _ small)
