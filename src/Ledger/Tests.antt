-- ===== src/Ledger/Tests.antt =====
-- Runs of the ledger with a digest that has no collisions, and its theorems at them.
use zero_trace.Prelude.{
  String, ◌≡◌, ◌⊎◌, ◌↔◌, refl, false, none, some, [], ◌∷◌, ◌++◌, str_eq, length,
}
use zero_trace.Ledger.Json.{
  array, object, text, done, item, Fields, end, field, is_forbidden, assert_safe,
}
use zero_trace.Ledger.Safe.{Reaches, assert_safe_iff}
use zero_trace.Ledger.Chain
use zero_trace.Ledger.Chain.{
  hash_for, Store, genesis, read, put, build, append, appended, verify, verified, head,
}
use zero_trace.Ledger.Append.{end_hash, verify-append}
use zero_trace.Ledger.Tamper.{SameChain, Collide, verify-SameChain, verify-truncated}
use zero_trace.Ledger.Model.{model}

-- A store with one record of a tenant, and what appending a second one gives.
abbrev note : Fields
note = field "entity_class" (text "PAN") end

abbrev first_row : Chain.Record model
first_row = build model "acme" "decision" note "09:00" none

abbrev second_row : Chain.Record model
second_row = build model "acme" "override" note "09:01" (some (1, first_row.record_hash))

abbrev one_row : Store model
one_row = ("acme", first_row ∷ []) ∷ []

abbrev two_rows : Store model
two_rows = ("acme", first_row ∷ second_row ∷ []) ∷ []

one_row-verify : verify model "acme" one_row ≡ verified 1
unfolding verify model build hash_for
one_row-verify = refl

second_is_appended :
    append model (λ k. k) "acme" "override" note "09:01" one_row ≡ appended second_row two_rows
unfolding append model build put read assert_safe is_forbidden
second_is_appended = refl

two_rows-verify : verify model "acme" two_rows ≡ verified 2
unfolding verify model build hash_for
two_rows-verify = refl

verify-append_example :
    (verify model "acme" two_rows ≡ verified 2)
    × (second_row.id ≡ 2)
    × ((u : String) → str_eq "acme" u ≡ false → read model u two_rows ≡ read model u one_row)
verify-append_example =
    verify-append model (λ k. k) "acme" "override" "09:01" note one_row two_rows second_row 1
      second_is_appended one_row-verify

-- The same chain beside another tenant's.
abbrev shared : Store model
shared = ("globex", []) ∷ two_rows

shared-verify : verify model "acme" shared ≡ verified 2
unfolding verify model build hash_for
shared-verify = refl

same_end :
    end_hash model (genesis model "acme") (read model "acme" two_rows)
    ≡ end_hash model (genesis model "acme") (read model "acme" shared)
unfolding read
same_end = refl

verify-SameChain_example :
    SameChain model (read model "acme" two_rows) (read model "acme" shared)
    ⊎ Collide model (read model "acme" two_rows) (read model "acme" shared)
verify-SameChain_example =
    verify-SameChain model "acme" two_rows shared 2 two_rows-verify shared-verify same_end

cut_of_two : read model "acme" two_rows ≡ read model "acme" one_row ++ second_row ∷ []
unfolding read
cut_of_two = refl

verify-truncated_example :
    verify model "acme" one_row ≡ verified (length (read model "acme" one_row))
verify-truncated_example =
    verify-truncated model "acme" two_rows one_row (second_row ∷ []) 2 two_rows-verify cut_of_two

abbrev nested_note : Fields
nested_note = field "entity_class" (array (item (object note) done)) end

-- What stands in a list in a list is not reached, so its key may be a forbidden one.
abbrev deep_note : Fields
deep_note =
    field "rows"
      (array (item (array (item (object (field "secret" (text "hunter2") end)) done)) done)) end

deep_note_is_safe : assert_safe (λ k. k) deep_note [] ≡ none
unfolding assert_safe is_forbidden
deep_note_is_safe = refl

assert_safe_iff_example :
    (assert_safe (λ k. k) deep_note [] ≡ none)
    ↔ ((k : String) → Reaches k deep_note → is_forbidden k ≡ false)
assert_safe_iff_example = assert_safe_iff (λ k. k) deep_note
