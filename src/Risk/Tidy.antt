-- ===== src/Risk/Tidy.antt =====
-- The targets that gateway/base/risk.py keeps of a session: few, and each once.
use zero_trace.Prelude.{
  ℕ, zero, suc, ◌-◌, ◌≤◌, String, ◌≡◌, refl, sym, false, Bool-cases, inl, inr, List, [], ◌∷◌, ◌++◌,
  leb, contains, length, drop, length-drop, str_eq, eq_iff, arith,
}
use mathlib.Core.Path.{subst}
use zero_trace.Risk.Signals.{
  Signals, Call, last_eight, add_target, append_all, decay, count_call, observe, observe_all,
}

abbrev pub AllDistinct : List String → Type 0
AllDistinct [] = Unit
AllDistinct (x ∷ xs) = (contains x xs ≡ false) × AllDistinct xs

abbrev pub IsTidy : List String → Type 0
IsTidy ts = (length ts ≤ 8) × AllDistinct ts

apart : (x d : String) → str_eq d x ≡ false → str_eq x d ≡ false
apart x d h = ground (arith, eq_iff x d, eq_iff d x, h)

contains-append :
    (x d : String) (ts : List String)
    → contains x ts ≡ false
    → str_eq x d ≡ false
    → contains x (ts ++ d ∷ []) ≡ false
contains-append x d [] h k = ground (arith, k)
contains-append x d (t ∷ ts) h k = ground (arith, contains-append x d ts, h, k)

append-AllDistinct :
    (d : String) (ts : List String)
    → contains d ts ≡ false
    → AllDistinct ts
    → AllDistinct (ts ++ d ∷ [])
append-AllDistinct d [] h all = (refl, tt)
append-AllDistinct d (t ∷ ts) h (n, all) =
    let (here_, there) : (str_eq d t ≡ false) × (contains d ts ≡ false) = ground (arith, h) in
    (contains-append t d ts n (apart t d here_), append-AllDistinct d ts there all)

drop-AllDistinct : (n : ℕ) (ts : List String) → AllDistinct ts → AllDistinct (drop n ts)
drop-AllDistinct zero ts all = all
drop-AllDistinct (suc n) [] all = all
drop-AllDistinct (suc n) (t ∷ ts) (h, all) = drop-AllDistinct n ts all

at_most : (n : ℕ) → n - (n - 8) ≤ 8
at_most n = omega arith

last_eight-IsTidy : (ts : List String) → AllDistinct ts → IsTidy (last_eight ts)
unfolding last_eight
last_eight-IsTidy ts all = (
  subst (λ n. n ≤ 8) (sym (length-drop (length ts - 8) ts)) (at_most (length ts)),
  drop-AllDistinct (length ts - 8) ts all,
)

add_target-IsTidy : (s : Signals) (d : String) → IsTidy s.targets → IsTidy (add_target s d).targets
unfolding add_target
add_target-IsTidy s d (few, all) = elim (Bool-cases (contains d s.targets)) [
  | inl again ↦ rw (add_target, again) (few, all)
  | inr new ↦
      rw (add_target, new)
        (last_eight-IsTidy (s.targets ++ d ∷ []) (append-AllDistinct d s.targets new all))
]

append_all-IsTidy :
    (ds : List String) (s : Signals) → IsTidy s.targets → IsTidy (append_all s ds).targets
unfolding append_all
append_all-IsTidy [] s tidy = tidy
append_all-IsTidy (d ∷ ds) s tidy =
    append_all-IsTidy ds (add_target s d) (add_target-IsTidy s d tidy)

module _ (shrink : ℕ → ℕ → ℕ) where
  decay-targets : (now : ℕ) (s : Signals) → (decay shrink now s).targets ≡ s.targets
  unfolding decay
  decay-targets now s = elim (Bool-cases (leb s.updated 0)) [
    | inl fresh ↦ rw (decay, fresh)
    | inr old ↦ elim (Bool-cases (leb now s.updated)) [
      | inl early ↦ rw (decay, old, early)
      | inr late ↦ rw (decay, old, late)
    ]
  ]

  observe-IsTidy : (c : Call) (s : Signals) → IsTidy s.targets → IsTidy (observe shrink c s).targets
  unfolding observe count_call
  observe-IsTidy c s tidy =
      append_all-IsTidy c.appends (count_call c (decay shrink c.now s))
        (subst IsTidy (sym (decay-targets c.now s)) tidy)

  -- Through any calls of a session, at most eight targets are kept, and each once.
  pub observe_all-IsTidy :
      (cs : List Call) (s : Signals) → IsTidy s.targets → IsTidy (observe_all shrink cs s).targets
  unfolding observe_all
  observe_all-IsTidy [] s tidy = tidy
  observe_all-IsTidy (c ∷ cs) s tidy =
      observe_all-IsTidy cs (observe shrink c s) (observe-IsTidy c s tidy)
