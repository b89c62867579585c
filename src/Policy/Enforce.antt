-- ===== src/Policy/Enforce.antt =====
-- flow-core/internal/policy/middleware.go: the policy check in front of the routes of a twin, over
-- `Resolve` and `Authorize`; with it what decides which names a write persists: `PolicyContext` of
-- flow-core/internal/twin/twin.go and the decoding of the body in flow-core/internal/twin/write.go.
-- A body is the list of its members as they stand in the text. A route's answer is the status that
-- refuses it, or that the handler goes on.
pub mod Handler
pub mod Requests
pub mod Bodies
pub mod Bypass
mod Tests
use thingsflow.Base.{
  ℕ, List, [], ◌∷◌, ◌++◌, Bool, true, false, not, ◌&&◌, ◌||◌, Option, none, some, ◌==◌, ◌+◌, leb,
  if◌then◌else◌, map,
}
use thingsflow.Base.Text.{Text, codes, text_eq, trim_space, to_upper, has_suffix}
use thingsflow.Base.Dict.{Dict, get, put, keys}
use thingsflow.Base.Result.{Result, ok, err}
use thingsflow.Base.Json.{Json, Fields, object, array, null, bool, number, text, entries}
use thingsflow.Policy.Path.{resource_path}
use thingsflow.Policy.Authorize.{DerivedPolicy, Claims, subject_for_claims, authorize, sys_admin}
use thingsflow.Policy.Store.{Row, StoreError, resolve, default_policy_id}

-- What a `Resolver` returns: the tenant and the policy of the entity, that there is no entity, or
-- another error.
pub data Context : Type 0 where
  resolved : Text → Text → Context
  no_entity : Context
  lookup_failed : Context

-- The answer of a check: go on, or refuse with a status.
pub data Answer : Type 0 where
  proceed : Answer
  refuse : ℕ → Answer

-- What the check reads besides the request: the environment variable, whether there is a database
-- and whether it answers, and the catalog.
pub record Service : Type 0 where
  pub enabled_env : Text
  pub ready : Bool
  pub answered : Bool
  pub catalog : List Row

-- `EnforcementEnabled`
unfoldable pub enforcement_enabled : Service → Bool
unfolding trim_space text_eq
enforcement_enabled s = not (text_eq (trim_space s.enabled_env) (codes "false"))

-- The loop over the derived paths.
unfoldable pub all_authorized : Text → DerivedPolicy → Text → List Text → Bool
all_authorized subject doc action [] = true
all_authorized subject doc action (path ∷ paths) =
    let rest = all_authorized subject doc action paths in
    if authorize subject doc path action then rest else false

unfoldable pub check_paths : Text → DerivedPolicy → Text → Option (List Text) → Answer
unfolding all_authorized
check_paths subject doc action none = refuse 400
check_paths subject doc action (some paths) =
    if all_authorized subject doc action paths then proceed else refuse 403

unfoldable pub check_policy :
    Text → Text → (Text → Option (List Text)) → Text → Result StoreError DerivedPolicy → Answer
unfolding check_paths
check_policy subject action paths tenant (err e) = refuse 403
check_policy subject action paths tenant (ok doc) = check_paths subject doc action (paths tenant)

unfoldable pub check_context :
    Service → Text → Text → (Text → Option (List Text)) → Context → Answer
unfolding check_policy
check_context s subject action paths no_entity = proceed
check_context s subject action paths lookup_failed = refuse 500
check_context s subject action paths (resolved tenant policy_id) =
    check_policy subject action paths tenant (resolve tenant policy_id s.answered s.catalog)

-- `enforceEntityRequest`, from the claims that the token gave and the resolver's answer.
unfoldable pub enforce_entity_request :
    Service → Option Claims → Context → Text → (Text → Option (List Text)) → Answer
unfolding check_context enforcement_enabled
enforce_entity_request s none context action paths = refuse 401
enforce_entity_request s (some claims) context action paths =
    let subject = subject_for_claims claims in
    if not (enforcement_enabled s) || text_eq subject sys_admin
    then proceed
    else if not s.ready
    then refuse 503
    else check_context s subject action paths context

-- `EnforceRead`
unfoldable pub enforce_read : Service → Option Claims → Context → Text → Text → Answer
enforce_read s claims context entity_type entity_id =
    enforce_entity_request s claims context (codes "READ")
      λ tenant. some (resource_path tenant entity_type entity_id [] ∷ [])

-- `EnforceModelWrite`
unfoldable pub enforce_model_write : Service → Option Claims → Context → Text → Text → Answer
enforce_model_write s claims context entity_type entity_id =
    enforce_entity_request s claims context (codes "WRITE")
      λ tenant. some (resource_path tenant entity_type entity_id (codes "model" ∷ []) ∷ [])

unfoldable pub check_list : Text → Text → Result StoreError DerivedPolicy → Answer
check_list subject tenant (err e) = refuse 403
check_list subject tenant (ok doc) =
    if authorize subject doc (codes "thing:/" ++ tenant) (codes "READ") then proceed else refuse 403

-- The reference of a tenant's default policy.
unfoldable pub default_reference : Text → Text
default_reference tenant = codes "tenant:" ++ (tenant ++ (58 ∷ default_policy_id))

-- `EnforceList`
unfoldable pub enforce_list : Service → Option Claims → Answer
unfolding check_list enforcement_enabled default_reference
enforce_list s none = refuse 401
enforce_list s (some claims) =
    let subject = subject_for_claims claims in
    let tenant = claims.tenant_id in
    if not (enforcement_enabled s) || text_eq subject sys_admin
    then proceed
    else if text_eq tenant []
    then proceed
    else if not s.ready
    then refuse 503
    else check_list subject tenant (resolve tenant (default_reference tenant) s.answered s.catalog)

-- A body that cannot be read, that is no JSON text, or a JSON value.
pub data Body : Type 0 where
  unreadable : Body
  no_json : Body
  value : Json → Body

-- `strings.HasSuffix(r.URL.Path, "/attributes")`
unfoldable pub route_key : Text → Text
unfolding has_suffix
route_key url_path =
    if has_suffix url_path (codes "/attributes") then codes "attributes" else codes "features"

-- The value of a key in a map that is decoded from the members: the last one's.
unfoldable pub last_member : Text → Dict Json → Option Json
last_member k [] = none
last_member k ((j, v) ∷ rest) = elim (last_member k rest) [
  | some w ↦ some w
  | none ↦ if text_eq j k then some v else none
]

-- The members of a value that is decoded into a map.
unfoldable pub as_map : Json → Option (Dict Json)
unfolding entries
as_map (object fields) = some (entries fields)
as_map null = some []
as_map (bool b) = none
as_map (number n) = none
as_map (text t) = none
as_map (array items) = none

unfoldable pub name_paths : Text → Text → Text → Text → List Text → List Text
name_paths tenant entity_type entity_id route [] = []
name_paths tenant entity_type entity_id route (name ∷ names) =
    resource_path tenant entity_type entity_id (route ∷ name ∷ [])
    ∷ name_paths tenant entity_type entity_id route names

-- The paths of the names, or the base path if there are none.
unfoldable pub paths_or_base : Text → Text → Text → Text → List Text → List Text
unfolding name_paths
paths_or_base tenant entity_type entity_id route [] =
    resource_path tenant entity_type entity_id [] ∷ []
paths_or_base tenant entity_type entity_id route (name ∷ names) =
    name_paths tenant entity_type entity_id route (name ∷ names)

unfoldable pub member_paths : Text → Text → Text → Text → Option Json → Option (List Text)
unfolding paths_or_base as_map keys
member_paths tenant entity_type entity_id route none =
    some (resource_path tenant entity_type entity_id [] ∷ [])
member_paths tenant entity_type entity_id route (some raw) = elim (as_map raw) [
  | none ↦ none
  | some names ↦ some (paths_or_base tenant entity_type entity_id route (keys names))
]

-- The function `paths` of `EnforceWrite`.
unfoldable pub write_paths : Text → Text → Text → Body → Text → Option (List Text)
unfolding member_paths last_member as_map
write_paths entity_type entity_id route unreadable tenant = none
write_paths entity_type entity_id route no_json tenant = none
write_paths entity_type entity_id route (value json) tenant = elim (as_map json) [
  | none ↦ none
  | some payload ↦ member_paths tenant entity_type entity_id route (last_member route payload)
]

-- `EnforceWrite`
unfoldable pub enforce_write :
    Service → Option Claims → Context → Text → Text → Text → Body → Answer
unfolding enforce_entity_request write_paths route_key
enforce_write s claims context entity_type entity_id url_path body =
    enforce_entity_request s claims context (codes "WRITE")
      (write_paths entity_type entity_id (route_key url_path) body)
