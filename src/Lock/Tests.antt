-- ===== src/Lock/Tests.antt =====
-- Two writers of one ledger: one is let in at 100 for 10 milliseconds, the other comes at 105.
use zero_trace.Prelude.{◌≡◌, refl, true, false, List, [], ◌∷◌, All, arith}
use zero_trace.Lock.Leases.{acquire, release, Command, acquires, releases, run}
use zero_trace.Lock.Exclusive.{IsOthers, run-Exclusive}

abbrev others : List Command
others = acquires 103 "tenant" "b" 10 ∷ releases "tenant" "b" ∷ acquires 104 "else" "b" 10 ∷ []

others-IsOthers : All (IsOthers "tenant" "a" 110) others
others-IsOthers = (omega arith, (λ same. refl, (omega arith, tt)))

is_given : (acquire 100 "tenant" "a" 10 []).0 ≡ true
unfolding acquire
is_given = refl

is_taken_over : (acquire 111 "tenant" "b" 10 (("tenant", ("a", 110)) ∷ [])).0 ≡ true
unfolding acquire
is_taken_over = refl

late_release_does_nothing :
    release "tenant" "a" (("tenant", ("b", 121)) ∷ []) ≡ ("tenant", ("b", 121)) ∷ []
unfolding release
late_release_does_nothing = refl

run-Exclusive_example :
    (acquire 105 "tenant" "b" 10 (run others (acquire 100 "tenant" "a" 10 []).1)
      ≡ (false, run others (acquire 100 "tenant" "a" 10 []).1))
    × ((acquire 105 "tenant" "b" 10
          (release "tenant" "a" (run others (acquire 100 "tenant" "a" 10 []).1))).0
        ≡ true)
run-Exclusive_example =
    run-Exclusive 100 10 105 10 "tenant" "a" "b" others [] is_given others-IsOthers (omega arith)
