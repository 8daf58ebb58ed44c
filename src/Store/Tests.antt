-- ===== src/Store/Tests.antt =====
-- Runs of the policy store on one tenant and one policy, and its theorems at them.
use mathlib.Core.Path.{subst}
use mathlib.Core.Option.{some-injective}
use zero_trace.Prelude.{
  ℕ, String, ◌≡◌, refl, sym, ◌∙◌, inl, inr, true, false, Option, none, some, List, [], ◌∷◌, Any,
  Bool-cases, str_eq, if◌then◌else◌,
}
use zero_trace.Policy.{allow, mask}
use zero_trace.Gate.Masking.{enforce}
use zero_trace.Ledger.Model.{model}
use zero_trace.Chains.Records.{validate, check_hash}
use zero_trace.Store.Documents.{
  Document, Yaml, unreadable, mapping, PolicyDraft, Tenant, closed, auto, parse, parse_draft,
  draft_of, validate_ownership, stored_document, stored_yaml, Rereads, is_business_unit,
}
use zero_trace.Store.Blobs.{PolicyCache, Redis}
use zero_trace.Store.Rows.{PolicyRow, active_row}
use zero_trace.Store.Load.{loaded, load, get_tenant}
use zero_trace.Store.Publish.{
  Note, Request, Db, published, refused, Publication, publish, check_raise, next_version,
}
use zero_trace.Store.Stored.{parse-stored_yaml}
use zero_trace.Store.Versions.{WellVersioned}
use zero_trace.Store.Current.{IsCurrent, load-IsCurrent}
use zero_trace.Store.Lasting.{IsSound, StoredRereads, publish-IsSound, publish-load}
use zero_trace.Store.Exceptions.{
  PolicyException, active_classes, request_exception, approve, approved,
}
use zero_trace.Store.Approved.{
  Reach, start, next, request, approval, ActsFor, active_classes-TwoPeople,
}

-- What the author wrote: an org policy in enforce mode.
abbrev written : Document
written = record {
  version = none;
  org = some "acme";
  business_unit = none;
  mode = some enforce;
  default = none;
  unregistered_workload = none;
  promotion = none;
  fail = none;
  rules = none;
  escalation = none;
  invalid = false;
}

abbrev draft : PolicyDraft
draft = record {
  org = "acme";
  business_unit = none;
  mode = enforce;
  default = allow;
  unregistered_workload = mask;
  promotion = auto;
  fail = closed;
  rules = [];
  escalation = record { band_lo = 350; band_hi = 750; sample_rate = 150 };
}

-- A yaml library that knows three texts: the author's, the stored one and the stripped one.
abbrev yaml : Yaml
unfolding stored_document
yaml = record {
  safe_load = λ s.
      if str_eq s "written"
      then mapping written
      else if str_eq s "stored"
      then mapping (stored_document draft 1 false)
      else if str_eq s "stripped"
      then mapping (record (stored_document draft 1 false) { version = none })
      else unreadable;
  safe_dump = λ d. elim d.version [ none ↦ "stripped" | some v ↦ "dumped" ];
  tidy = λ s. "stored";
}

abbrev acme : Tenant
acme = record { id = "acme"; parent_id = none }

written-parses : parse_draft yaml "written" ≡ some draft
unfolding parse_draft yaml draft_of
written-parses = refl

written_is_owned : validate_ownership yaml acme draft "written" ≡ true
unfolding validate_ownership yaml
written_is_owned = refl

parse-stored_yaml_example :
    parse yaml (stored_yaml yaml draft 1 false) ≡ some (record { draft = draft; version = 1 })
unfolding yaml stored_document
parse-stored_yaml_example =
    parse-stored_yaml yaml acme draft "written" 1 refl written-parses written_is_owned

-- Stands for the 64 characters of a digest.
abbrev hash_text : String
hash_text = "0123456789abcdef0123456789abcdef0123456789abcdef0123456789abcdef"

abbrev hex : List model.Byte → String
hex d = hash_text

abbrev row_json : String → ℕ → String → List model.Byte
row_json t n text = model.utf8 t

abbrev describe : Note → String
describe n = "note"

abbrev empty_cache : PolicyCache
empty_cache = record {
  local = [];
  server = [];
  connected = false;
  tried = false;
  degraded = false;
  last_probe = 0;
}

abbrev down : Redis
down = record { configured = true; reachable = false; answers = false; now = 9000 }

abbrev first_publication : Request
first_publication = record {
  published_by = "ada";
  expected_active_version = none;
  ts = "09:00";
  anchor_ts = "09:01";
  redis_get = down;
  redis_set = down;
}

abbrev D : Type 0
D = Db model hex row_json yaml describe

abbrev before : D
before = record { policies = []; ledger = record { rows = []; next_id = 1 }; cache = empty_cache }

abbrev row_of : Publication model hex row_json yaml describe → PolicyRow
row_of (published row db) = row
row_of (refused why) = record {
  tenant_id = "";
  version = 0;
  yaml = "";
  content_hash = "";
  active = false;
}

abbrev db_of : Publication model hex row_json yaml describe → D
db_of (published row db) = db
db_of (refused why) = before

abbrev result : Publication model hex row_json yaml describe
result =
    publish model hex row_json yaml describe first_publication (acme ∷ []) "acme" "written" before

row_is_published : result ≡ published (row_of result) (db_of result)
unfolding publish yaml model parse_draft draft_of get_tenant validate_ownership check_raise validate
    check_hash
row_is_published = refl

before-IsSound : IsSound model hex row_json yaml describe before
before-IsSound = (λ t. tt, (tt, tt))

publish-IsSound_example : IsSound model hex row_json yaml describe (db_of result)
publish-IsSound_example =
    publish-IsSound model hex row_json yaml describe first_publication (acme ∷ []) "acme" "written"
      before (db_of result) (row_of result) before-IsSound row_is_published

acme_is_found : get_tenant "acme" (acme ∷ []) ≡ some acme
unfolding get_tenant
acme_is_found = refl

stored-Rereads :
    StoredRereads model hex row_json yaml describe first_publication
      (acme ∷ [])
      "acme"
      "written"
      before
      (db_of result)
      (row_of result)
unfolding yaml stored_document active_row
stored-Rereads d tenant parsed found =
    subst
      (λ x. Rereads yaml (
        stored_document x (next_version (active_row tenant.id before.policies))
          (is_business_unit tenant)))
      (some-injective _ _ (sym written-parses ∙ parsed))
      (subst
        (λ (x : Tenant). Rereads yaml (
          stored_document draft (next_version (active_row x.id before.policies))
            (is_business_unit x)))
        (some-injective _ _ (sym acme_is_found ∙ found)) refl)

publish-load_example :
    (d : PolicyDraft) × (reason : Option String) × (cache : PolicyCache) × ((parse_draft yaml
          "written"
        ≡ some d)
      × (load model hex row_json yaml down down "acme" (db_of result).policies (db_of result).cache
          ≡ loaded
              (record { draft = d; version = (row_of result).version })
              reason
              (row_of result).content_hash
              cache))
publish-load_example =
    publish-load model hex row_json yaml describe first_publication (acme ∷ []) "acme" "written"
      before (db_of result) (row_of result) down down stored-Rereads before-IsSound row_is_published

abbrev stored_row : PolicyRow
stored_row = record {
  tenant_id = "acme";
  version = 1;
  yaml = "stored";
  content_hash = hash_text;
  active = true;
}

stored_row-WellVersioned : WellVersioned (stored_row ∷ [])
stored_row-WellVersioned t = elim (Bool-cases (str_eq "acme" t)) [
  | inl mine ↦ rw mine (refl, refl)
  | inr other ↦ rw other tt
]

stored_row_is_active : active_row "acme" (stored_row ∷ []) ≡ some stored_row
unfolding active_row
stored_row_is_active = refl

load-IsCurrent_example :
    IsCurrent model hex row_json yaml
      (stored_row ∷ [])
      "acme"
      stored_row
      (load model hex row_json yaml down down "acme" (stored_row ∷ []) empty_cache)
load-IsCurrent_example =
    load-IsCurrent model hex row_json yaml (stored_row ∷ []) down down "acme" stored_row empty_cache
      stored_row-WellVersioned (tt, tt) stored_row_is_active

abbrev requested : List PolicyException
unfolding request_exception
requested = request_exception 1 "acme" none "PAN" "audit" "ada" 100 none []

abbrev granted : List PolicyException
granted =
    record {
      id = 1;
      tenant_id = "acme";
      actor_id = none;
      entity_class = "PAN";
      reason = "audit";
      requested_by = "ada";
      approved_by = some "bob";
      expires_at = 100;
      created_from_ledger_id = none;
    }
    ∷ []

granted_is_approved : approve 1 "bob" requested ≡ approved granted
unfolding approve requested request_exception
granted_is_approved = refl

granted-Reach : Reach granted
unfolding requested
granted-Reach =
    next (next start (request 1 "acme" none "PAN" "audit" "ada" 100 none []))
      (approval 1 "bob" requested granted granted_is_approved)

granted_is_active : Any (λ x. x ≡ "PAN") (active_classes 50 "acme" "u1" granted)
unfolding active_classes
granted_is_active = inl refl

active_classes-TwoPeople_example : Any (ActsFor 50 "acme" "u1" "PAN") granted
active_classes-TwoPeople_example =
    active_classes-TwoPeople 50 "acme" "u1" "PAN" granted granted-Reach granted_is_active
