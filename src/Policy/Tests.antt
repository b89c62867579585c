-- ===== src/Policy/Tests.antt =====
-- Runs and instances of the policy decision.
use thingsflow.Base.{◌≡◌, refl, ◌↔◌, [], ◌∷◌, true, false, some, arith}
use thingsflow.Base.Text.{Text, codes, text_eq, to_upper, trim_space, contains}
use thingsflow.Base.Sort.{sort_by, text_leb}
use thingsflow.Base.Result.{ok, each}
use thingsflow.Policy.Path.{match_resource, segments}
use thingsflow.Policy.Path.Covers.{Covers, match_resource_iff}
use thingsflow.Policy.Authorize.{DerivedPolicy, authorize}
use thingsflow.Policy.Authorize.Decision.{Binds, Allows, authorize_iff}
use thingsflow.Policy.Authorize.Order.{authorize-order}
use thingsflow.Policy.Lexical.{
  normalize_policy_id, canonical_policy_id, validate_version, subject_ok, validate_resource_path,
}
use thingsflow.Policy.Normalize.Canonical.{IsNormal, normalize_decoded_idem}
use thingsflow.Policy.Normalize.{
  Policy, normalize_decoded, derive, wrapped, checked, default_kind, add_subjects, add_subject,
  add_resources, add_resource, normalize_entries, add_entry, normalize_actions, add_action,
  no_elements, resources_of,
}

abbrev reader : Text
reader = codes "tenant:t1"

abbrev meter : Text
meter = codes "thing:/t1/DEVICE/d1/features/meter"

-- Everything under the tenant may be read, and the features of one device may not be.
abbrev guarded : DerivedPolicy
guarded = record {
  policy_id = codes "p";
  version = codes "1.0.0";
  kind = codes "TWIN";
  subjects = reader ∷ [];
  resources = [];
  grants =
      (codes "thing:/t1", codes "READ" ∷ [])
      ∷ (codes "thing:/t1/DEVICE/d1/attributes", codes "*" ∷ [])
      ∷ [];
  revokes = (codes "thing:/t1/DEVICE/d1/features/*", codes "READ" ∷ []) ∷ [];
  builtin = false;
}

abbrev swapped : DerivedPolicy
swapped = record guarded {
  grants =
      (codes "thing:/t1/DEVICE/d1/attributes", codes "*" ∷ [])
      ∷ (codes "thing:/t1", codes "READ" ∷ [])
      ∷ [];
}

reads_device : authorize reader guarded (codes "thing:/t1/DEVICE/d1") (codes " read") ≡ true
unfolding authorize match_resource text_eq to_upper trim_space
reads_device = refl

revoked_feature : authorize reader guarded meter (codes "READ") ≡ false
unfolding authorize match_resource text_eq to_upper trim_space
revoked_feature = refl

-- A name with a slash has one segment more than the pattern of the revoke.
slash_escapes_star :
    authorize reader guarded (codes "thing:/t1/DEVICE/d1/features/a/b") (codes "READ") ≡ true
unfolding authorize match_resource text_eq to_upper trim_space
slash_escapes_star = refl

authorize_iff_example :
    (authorize reader guarded meter (codes "READ") ≡ true)
    ↔ (Binds guarded reader × Allows guarded meter (to_upper (trim_space (codes "READ"))))
authorize_iff_example = authorize_iff reader guarded meter (codes "READ")

match_resource_iff_example :
    (match_resource (codes "thing:/t1/#") meter ≡ some 2)
    ↔ Covers (segments (codes "thing:/t1/#")) (segments meter) 2
match_resource_iff_example = match_resource_iff (codes "thing:/t1/#") meter 2

authorize-order_example :
    authorize reader guarded meter (codes "READ") ≡ authorize reader swapped meter (codes "READ")
authorize-order_example =
    authorize-order guarded swapped reader meter (codes "READ") refl
      ((λ e i. ground (arith, i)), λ e i. ground (arith, i)) ((λ e i. i), λ e i. i)

abbrev authored : Policy
authored = record {
  policy_id = codes "My Policy!";
  version = codes "1.0.0";
  kind = [];
  subjects = codes " user:u1" ∷ codes "tenant:t1" ∷ codes "user:u1" ∷ [];
  resources = codes "thing:/t1" ∷ [];
  grants =
      record { resource = codes "thing:/t1/b"; actions = codes "write" ∷ codes "READ " ∷ [] }
      ∷ record { resource = codes "thing:/t1/a"; actions = codes "*" ∷ [] }
      ∷ [];
  revokes = [];
}

abbrev normal : Policy
normal = record {
  policy_id = codes "my_policy";
  version = codes "1.0.0";
  kind = codes "TWIN";
  subjects = codes "tenant:t1" ∷ codes "user:u1" ∷ [];
  resources = codes "thing:/t1" ∷ [];
  grants =
      record { resource = codes "thing:/t1/a"; actions = codes "*" ∷ [] }
      ∷ record { resource = codes "thing:/t1/b"; actions = codes "READ" ∷ codes "WRITE" ∷ [] }
      ∷ [];
  revokes = [];
}

normalizes : normalize_decoded authored ≡ ok (normal, derive normal)
unfolding normalize_decoded wrapped normalize_policy_id canonical_policy_id validate_version checked
    default_kind add_subjects add_subject subject_ok add_resources add_resource
    validate_resource_path each normalize_entries add_entry normalize_actions add_action no_elements
    derive sort_by contains resources_of text_eq to_upper trim_space text_leb
normalizes = refl

identifier : normalize_policy_id (codes "My Policy!") ≡ ok (codes "my_policy")
unfolding normalize_policy_id canonical_policy_id text_eq
identifier = refl

normalize_decoded_idem_example :
    IsNormal normal × (normalize_decoded normal ≡ ok (normal, derive normal))
normalize_decoded_idem_example = normalize_decoded_idem authored normalizes
