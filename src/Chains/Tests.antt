-- ===== src/Chains/Tests.antt =====
-- Runs of the two-chain ledger on a small table, and its theorems at them.
use zero_trace.Prelude.{ℕ, String, ◌≡◌, ◌≢◌, refl, none, some, List, [], ◌∷◌, ◌++◌, arith}
use zero_trace.Ledger.Model.{model}
use zero_trace.Chains.Records.{Payload, policy_updated, request_failed, validate, check_hash}
use zero_trace.Chains.Fields.{model_dump, get}
use zero_trace.Chains.Rows
use zero_trace.Chains.Rows.{
  Table, append, appended, of_tenant, insert, route, chains, new_row, anchor_payload,
}
use zero_trace.Chains.Roots.{Parents, cyclic, out_of_fuel, root_tenant, parent_of, root_tenant-ends}
use zero_trace.Chains.Bindings.{Policies, find_policy, binding_failure}
use zero_trace.Chains.Verify.{verify, verified}
use zero_trace.Chains.Shape.{main_row, anchor_row}
use zero_trace.Chains.Promise.{Fresh, verify-appended, append-accepts}

-- Stands for the 64 characters of a digest.
abbrev hash_text : String
hash_text = "0123456789abcdef0123456789abcdef0123456789abcdef0123456789abcdef"

abbrev hex : List model.Byte → String
hex d = hash_text

abbrev row_json : String → ℕ → String → List model.Byte
row_json t n yaml = model.utf8 t ++ model.utf8 yaml

abbrev policies : Policies
policies = ("acme", 1, "rules: []") ∷ []

abbrev tenants : Parents
tenants = ("acme", none) ∷ []

abbrev failed : Payload
failed = request_failed (record {
  request_id = "r1";
  stage = "upstream";
  code = "timeout";
  upstream_model = "m";
  org_policy_version = 1;
  bu_policy_version = none;
})

-- A text that is not among the literals of a field is refused.
unknown_stage_is_refused :
    validate "request.failed" (
      request_failed (record {
        request_id = "r1";
        stage = "later";
        code = "timeout";
        upstream_model = "m";
        org_policy_version = 1;
        bu_policy_version = none;
      }))
    ≡ none
unfolding validate
unknown_stage_is_refused = refl

abbrev updated : Payload
updated = policy_updated (record {
  version = 1;
  previous_version = none;
  published_by = "ada";
  rule_count = 0;
  content_hash = hash_text;
  diff_summary = [];
})

abbrev empty : Table model hex
empty = record { rows = []; next_id = 1 }

abbrev failed_row : Rows.Row model hex
failed_row = main_row model hex "acme" "dp" "request.failed" (model_dump failed) "09:00" empty

abbrev with_failed : Table model hex
with_failed = insert model hex failed_row empty

abbrev table : Table model hex
table =
    insert model hex (anchor_row model hex "acme" "dp" failed_row "09:01" with_failed) with_failed

abbrev updated_row : Rows.Row model hex
updated_row = main_row model hex "acme" "ctl" "policy.updated" (model_dump updated) "09:02" table

abbrev with_updated : Table model hex
with_updated = insert model hex updated_row table

abbrev table_after : Table model hex
table_after =
    insert model hex (anchor_row model hex "acme" "ctl" updated_row "09:03" with_updated)
      with_updated

table-verify : verify model hex row_json policies tenants "acme" none table ≡ verified 2
unfolding verify model new_row anchor_payload model_dump get binding_failure
table-verify = refl

updated_is_appended :
    append model hex "acme" "policy.updated" updated none "09:02" "09:03" table
    ≡ appended updated_row table_after
unfolding append validate new_row anchor_payload model_dump check_hash
updated_is_appended = refl

table-Fresh : Fresh model hex row_json policies tenants "acme" table
unfolding new_row
table-Fresh = (omega arith, (omega arith, tt))

updated_row-bound :
    binding_failure model hex row_json policies tenants updated_row
      (of_tenant model hex "acme" table.rows)
    ≡ none
unfolding binding_failure new_row model_dump get find_policy
updated_row-bound = refl

verify-appended_example :
    (verify model hex row_json policies tenants "acme" none table_after ≡ verified 4)
    × Fresh model hex row_json policies tenants "acme" table_after
verify-appended_example =
    verify-appended model hex row_json policies tenants "acme" "policy.updated" updated none "09:02"
      "09:03" table table_after updated_row 2 table-Fresh table-verify updated_is_appended
      updated_row-bound

updated_is_valid : validate "policy.updated" updated ≡ some updated
unfolding validate check_hash
updated_is_valid = refl

append-accepts_example :
    (row : Rows.Row model hex) × (table' : Table model hex) × (append model hex "acme"
        "policy.updated" updated none "09:02" "09:03" table
      ≡ appended row table')
unfolding check_hash
append-accepts_example =
    append-accepts model hex row_json policies tenants "acme" (λ x. refl) "policy.updated" updated
      updated none "ctl" "09:02" "09:03" table 2 table-Fresh table-verify refl refl refl
      updated_is_valid

-- Two tenants that are each other's parents.
abbrev ring : Parents
ring = ("acme", some "globex") ∷ ("globex", some "acme") ∷ []

ring_is_cyclic : root_tenant ring "acme" ≡ cyclic
unfolding root_tenant parent_of
ring_is_cyclic = refl

root_tenant-ends_example : root_tenant ring "acme" ≢ out_of_fuel
root_tenant-ends_example = root_tenant-ends ring "acme"
