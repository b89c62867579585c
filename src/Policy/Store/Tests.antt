-- ===== src/Policy/Store/Tests.antt =====
-- Runs and instances of the catalog's theorems.
use thingsflow.Base.{◌≡◌, ◌≢◌, refl, List, [], ◌∷◌, ◌⊎◌, true, false, none, some, arith, inr}
use thingsflow.Base.Text.{Text, codes, text_eq, to_upper, trim_space, contains, split}
use thingsflow.Base.Strconv.{read_digits}
use thingsflow.Base.Sort.{sort_by, text_leb}
use thingsflow.Base.Result.{ok, err, each}
use thingsflow.Policy.Lexical.{
  normalize_policy_id, canonical_policy_id, validate_version, subject_ok, validate_resource_path,
}
use thingsflow.Policy.Authorize.{DerivedPolicy}
use thingsflow.Policy.Normalize.{
  Policy, Authored, object, normalize, normalize_decoded, derive, wrapped, checked, default_kind,
  add_subjects, add_subject, add_resources, add_resource, normalize_entries, add_entry,
  normalize_actions, add_action, no_elements, resources_of,
}
use thingsflow.Policy.Store.{
  Row, forbidden, resolve, create_policy, deprecate, split_policy_id, older, is_current, newest,
  numbers, array_lt, to_number, find_row, has_key,
}
use thingsflow.Policy.Store.Resolve.{resolve_lem, AnswersId}
use thingsflow.Policy.Store.Versions.{operations-Unique, Unique, AllKept}
use thingsflow.Policy.Store.Selection.{resolve-create, Refers}

abbrev t1 : Text
t1 = codes "t1"

abbrev t2 : Text
t2 = codes "t2"

t1≢t2 : t1 ≢ t2
t1≢t2 = ground arith

abbrev owner_policy : Text → Policy
owner_policy version = record {
  policy_id = codes "owner";
  version = version;
  kind = codes "TWIN";
  subjects = codes "tenant:t1" ∷ [];
  resources = [];
  grants = [];
  revokes = [];
}

abbrev owner_schema : Text → DerivedPolicy
owner_schema version = record {
  policy_id = codes "owner";
  version = version;
  kind = codes "TWIN";
  subjects = codes "tenant:t1" ∷ [];
  resources = [];
  grants = [];
  revokes = [];
  builtin = false;
}

abbrev row : Text → Row
row version = record {
  tenant_id = t1;
  policy_id = codes "owner";
  version = version;
  definition = owner_policy version;
  schema = owner_schema version;
  deprecated = false;
  created_time = 5;
  updated_time = 5;
}

abbrev catalog : List Row
catalog = row (codes "1.9.0") ∷ row (codes "1.2.0") ∷ []

abbrev authored : Authored
authored = object true true (some (owner_policy (codes "1.10.0")))

-- The tenth minor version is newer than the ninth.
newest_by_number :
    newest t1 (codes "owner") (row (codes "1.9.0") ∷ row (codes "1.10.0") ∷ [])
    ≡ some (row (codes "1.10.0"))
unfolding newest is_current older split read_digits to_number numbers array_lt text_eq
newest_by_number = refl

creates :
    create_policy t1 authored 5 true catalog
    ≡ (ok (row (codes "1.10.0")), row (codes "1.10.0") ∷ catalog)
unfolding create_policy normalize normalize_decoded wrapped normalize_policy_id canonical_policy_id
    validate_version checked default_kind add_subjects add_subject subject_ok add_resources
    add_resource validate_resource_path each normalize_entries add_entry normalize_actions
    add_action no_elements derive sort_by contains resources_of text_eq to_upper trim_space text_leb
    has_key
creates = refl

owner-Refers : Refers t1 (codes "owner") (codes "tenant:t1:Owner")
unfolding split_policy_id normalize_policy_id canonical_policy_id text_eq
owner-Refers = inr (codes "Owner", refl, refl)

resolve-create_example :
    resolve t1 (codes "tenant:t1:Owner") true (row (codes "1.10.0") ∷ catalog)
    ≡ ok (owner_schema (codes "1.10.0"))
unfolding older numbers array_lt split read_digits to_number
resolve-create_example =
    resolve-create t1 (codes "tenant:t1:Owner") authored 5 catalog (row (codes "1.10.0") ∷ catalog)
      (row (codes "1.10.0")) creates ((λ _. refl), ((λ _. refl), tt)) owner-Refers

resolve_lem_example :
    ((owner id : Text) × (split_policy_id (codes "tenant:t2:owner") ≡ some (owner, id))
      × (owner ≢ t1)
      × (resolve t1 (codes "tenant:t2:owner") true catalog ≡ err forbidden))
    ⊎ ((id : Text) × (split_policy_id (codes "tenant:t2:owner") ≡ some (t1, id))
        × AnswersId t1 id catalog (resolve t1 (codes "tenant:t2:owner") true catalog))
    ⊎ ((split_policy_id (codes "tenant:t2:owner") ≡ none)
        × AnswersId t1
            (codes "tenant:t2:owner")
            catalog
            (resolve t1 (codes "tenant:t2:owner") true catalog))
resolve_lem_example = resolve_lem t1 (codes "tenant:t2:owner") catalog

operations-Unique_example :
    (Unique (create_policy t1 authored 5 true catalog).1
      × AllKept catalog (create_policy t1 authored 5 true catalog).1)
    × (Unique (deprecate t1 (codes "owner") (codes "1.9.0") 5 true catalog).1
        × AllKept catalog (deprecate t1 (codes "owner") (codes "1.9.0") 5 true catalog).1)
unfolding find_row has_key text_eq
operations-Unique_example =
    operations-Unique t1 (codes "owner") (codes "1.9.0") authored 5 true catalog (refl, (refl, tt))
