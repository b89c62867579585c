-- ===== src/Policy/Enforce/Tests.antt =====
-- Runs and instances of the theorems on the policy check.
use thingsflow.Base.{◌≡◌, ◌≢◌, ◌↔◌, ◌⊎◌, refl, true, false, none, some, [], ◌∷◌}
use thingsflow.Base.Text.{Text, codes, text_eq, to_upper, trim_space, has_suffix, split}
use thingsflow.Base.Result.{ok}
use thingsflow.Base.Json.{Fields, null, object, field, end}
use thingsflow.Policy.Path.{resource_path, match_resource, match_segments, scan, verdict, ends_star}
use thingsflow.Policy.Authorize.{
  DerivedPolicy, Claims, subject_for_claims, authorize, subject_matches, bound_by, deepest_from,
  deeper, decide_at, covering, at_depth, action_covered, sys_admin,
}
use thingsflow.Policy.Lexical.{normalize_policy_id, canonical_policy_id}
use thingsflow.Policy.Store.{
  Row, resolve, resolve_canonical, split_policy_id, newest, is_current, older,
}
use thingsflow.Policy.Enforce.{
  Service, resolved, no_entity, proceed, value, enforcement_enabled, route_key, enforce_write,
  enforce_entity_request,
}
use thingsflow.Policy.Enforce.Handler.{
  Twins, Entity, folds_to, fold_code, persisted, find_entity, handled_entity, policy_context,
}
use thingsflow.Policy.Enforce.Requests.{enforce_iff, Passes}
use thingsflow.Policy.Enforce.Bypass.{enforce_write-other_spelling, enforce_write-other_type}

abbrev t1 : Text
t1 = codes "t1"

-- WRITE is granted below the tenant and revoked on one attribute.
abbrev doc : DerivedPolicy
doc = record {
  policy_id = codes "owner";
  version = codes "1.0.0";
  kind = codes "TWIN";
  subjects = codes "tenant:t1" ∷ [];
  resources = [];
  grants = (codes "thing:/t1/#", codes "WRITE" ∷ []) ∷ [];
  revokes = (codes "thing:/t1/ASSET/a1/attributes/locked", codes "WRITE" ∷ []) ∷ [];
  builtin = false;
}

abbrev row : Row
row = record {
  tenant_id = t1;
  policy_id = codes "owner";
  version = codes "1.0.0";
  definition = record {
    policy_id = codes "owner";
    version = codes "1.0.0";
    kind = codes "TWIN";
    subjects = codes "tenant:t1" ∷ [];
    resources = [];
    grants = [];
    revokes = [];
  };
  schema = doc;
  deprecated = false;
  created_time = 5;
  updated_time = 5;
}

abbrev service : Service
service = record { enabled_env = []; ready = true; answered = true; catalog = row ∷ [] }

abbrev claims : Claims
claims = record { scopes = []; tenant_id = t1; user_id = [] }

abbrev a1 : Entity
a1 = record { id = codes "a1"; tenant_id = t1 }

abbrev twins : Twins
twins = record {
  devices = [];
  assets = a1 ∷ [];
  registry =
      record {
        tenant_id = t1;
        entity_type = codes "ASSET";
        entity_id = codes "a1";
        policy_id = codes "owner";
      }
      ∷ [];
  entity_answered = true;
  registry_answered = true;
}

abbrev url : Text
url = codes "/api/twins/ASSET/a1/attributes"

known : resolve t1 (codes "owner") true (row ∷ []) ≡ ok doc
unfolding resolve resolve_canonical split_policy_id newest is_current older text_eq
    normalize_policy_id canonical_policy_id
known = refl

may_write : authorize (codes "tenant:t1") doc (codes "thing:/t1/ASSET/a1") (codes "WRITE") ≡ true
unfolding authorize subject_matches bound_by deepest_from deeper decide_at covering at_depth
    action_covered match_resource match_segments scan verdict ends_star text_eq to_upper trim_space
    split
may_write = refl

-- The path of the attribute that the policy protects is denied.
locked_denied :
    authorize (codes "tenant:t1") doc (codes "thing:/t1/ASSET/a1/attributes/locked") (codes "WRITE")
    ≡ false
unfolding authorize subject_matches bound_by deepest_from deeper decide_at covering at_depth
    action_covered match_resource match_segments scan verdict ends_star text_eq to_upper trim_space
    split
locked_denied = refl

abbrev other_key : Text
other_key = codes "Attributes"

other_spelling : text_eq other_key (route_key url) ≡ false
unfolding route_key has_suffix text_eq
other_spelling = refl

folds : folds_to other_key (route_key url) ≡ true
unfolding route_key has_suffix folds_to fold_code text_eq
folds = refl

enforce_write-other_spelling_example :
    (enforce_write service
        (some claims)
        (resolved t1 (codes "owner"))
        (codes "ASSET")
        (codes "a1")
        url
        (value (object (field other_key (object (field (codes "locked") null end)) end)))
      ≡ proceed)
    × (persisted
          (route_key url)
          (value (object (field other_key (object (field (codes "locked") null end)) end)))
        ≡ some ((codes "locked", null) ∷ []))
unfolding subject_for_claims resource_path text_eq
enforce_write-other_spelling_example =
    enforce_write-other_spelling service claims t1 (codes "owner") (codes "ASSET") (codes "a1") url
      other_key (codes "locked") null doc refl known may_write other_spelling folds

type_differs : text_eq (codes "asset") (codes "ASSET") ≡ false
unfolding text_eq
type_differs = refl

type_normalizes : to_upper (trim_space (codes "asset")) ≡ codes "ASSET"
unfolding to_upper trim_space
type_normalizes = refl

found : find_entity (codes "a1") twins.assets ≡ some a1
unfolding find_entity text_eq
found = refl

not_a_device : find_entity (codes "a1") twins.devices ≡ none
unfolding find_entity
not_a_device = refl

enforce_write-other_type_example :
    (enforce_write service
        (some claims)
        (policy_context twins (codes "asset") (codes "a1"))
        (codes "asset")
        (codes "a1")
        url
        (value (object (field (codes "attributes") (object (field (codes "locked") null end)) end)))
      ≡ proceed)
    × (handled_entity twins (codes "asset") (codes "a1") ≡ some a1)
enforce_write-other_type_example =
    enforce_write-other_type service claims twins (codes "asset") (codes "a1") url
      (value (object (field (codes "attributes") (object (field (codes "locked") null end)) end)))
      a1 refl refl type_differs type_normalizes not_a_device found

enforce_iff_example :
    ((enforce_entity_request service (some claims) no_entity (codes "READ") (λ t. none) ≡ proceed)
      ↔ ((enforcement_enabled service ≡ false)
          ⊎ (subject_for_claims claims ≡ sys_admin)
          ⊎ ((true ≡ true)
              × Passes service (subject_for_claims claims) (codes "READ") (λ t. none) no_entity)))
    × (enforce_entity_request service none no_entity (codes "READ") (λ t. none) ≢ proceed)
enforce_iff_example = enforce_iff service claims no_entity (codes "READ") (λ t. none)

abbrev body_fields : Fields
body_fields =
    field (codes "attributes") (object (field (codes "name") null end))
      (field (codes "features") null end)
