-- ===== src/Policy/Enforce/Handler.antt =====
-- The handlers of flow-core/internal/twin that stand behind the policy check: which entity a
-- request is about (twin.go), and which names of its body a write persists (write.go). A struct's
-- field takes every member whose name folds to the field's, and a later object adds to the map that
-- an earlier one began.
use thingsflow.Base.{
  ℕ, List, [], ◌∷◌, ◌++◌, Bool, ◌&&◌, Option, none, some, ◌==◌, ◌+◌, leb, if◌then◌else◌, map,
}
use thingsflow.Base.Text.{Text, codes, text_eq, trim_space, to_upper}
use thingsflow.Base.Dict.{Dict}
use thingsflow.Base.Json.{Json, object, array, null, bool, number, text, entries}
use thingsflow.Policy.Enforce.{
  Context, resolved, no_entity, lookup_failed, Body, value, unreadable, no_json,
}
use thingsflow.Policy.Store.{default_policy_id}

-- A row of the table `device` or `asset`, and a row of `twin_registry`.
pub record Entity : Type 0 where
  pub id : Text
  pub tenant_id : Text

pub record Pin : Type 0 where
  pub tenant_id : Text
  pub entity_type : Text
  pub entity_id : Text
  pub policy_id : Text

-- The tables, and whether the database answers the query of the entity and that of the registry; a
-- registry table that does not exist answers as an empty one.
pub record Twins : Type 0 where
  pub devices : List Entity
  pub assets : List Entity
  pub registry : List Pin
  pub entity_answered : Bool
  pub registry_answered : Bool

unfoldable pub find_entity : Text → List Entity → Option Entity
find_entity id [] = none
find_entity id (e ∷ rest) = if text_eq e.id id then some e else find_entity id rest

-- `loadEntity`: every type but `ASSET` is looked up among the devices. Ids are compared as texts,
-- in the spelling in which the store writes a `uuid`.
unfoldable pub load_entity : Twins → Text → Text → Option Entity
unfolding find_entity text_eq
load_entity t entity_type id =
    find_entity id (if text_eq entity_type (codes "ASSET") then t.assets else t.devices)

unfoldable pub find_pin : Text → Text → Text → List Pin → Option Pin
find_pin tenant entity_type id [] = none
find_pin tenant entity_type id (p ∷ rest) =
    if text_eq p.tenant_id tenant && (text_eq p.entity_type entity_type && text_eq p.entity_id id)
    then some p
    else find_pin tenant entity_type id rest

-- The policy of `loadIdentity`: the registry's, or the default one of the tenant.
unfoldable pub policy_of : Text → Option Pin → Text
policy_of tenant (some p) = p.policy_id
policy_of tenant none = codes "tenant:" ++ (tenant ++ (58 ∷ default_policy_id))

unfoldable pub context_of : Twins → Text → Option Entity → Context
unfolding find_pin policy_of to_upper
context_of t entity_type none = no_entity
context_of t entity_type (some e) =
    if t.registry_answered
    then resolved e.tenant_id
        (policy_of e.tenant_id (find_pin e.tenant_id (to_upper entity_type) e.id t.registry))
    else lookup_failed

-- `PolicyContext`
unfoldable pub policy_context : Twins → Text → Text → Context
unfolding context_of load_entity
policy_context t entity_type id =
    if t.entity_answered
    then context_of t entity_type (load_entity t entity_type id)
    else lookup_failed

-- The entity that the handlers load, behind their normalization of the type.
unfoldable pub handled_entity : Twins → Text → Text → Option Entity
unfolding load_entity to_upper trim_space
handled_entity t entity_type id = load_entity t (to_upper (trim_space entity_type)) id

-- `foldName` of `encoding/json` on the letters of the fields: ASCII letters without their case, and
-- the two other code points that fold to such letters.
unfoldable pub fold_code : ℕ → ℕ
fold_code c =
    if leb 65 c && leb c 90
    then c + 32
    else if c == 0x17f
    then 115
    else if c == 0x212a
    then 107
    else c

unfoldable pub folds_to : Text → Text → Bool
unfolding fold_code text_eq
folds_to k field = text_eq (map fold_code k) (map fold_code field)

-- The decoding of one member into a field that is a map, which may be nil.
unfoldable pub decode_member : Option (Dict Json) → Json → Option (Option (Dict Json))
unfolding entries
decode_member none (object fields) = some (some (entries fields))
decode_member (some m) (object fields) = some (some (m ++ entries fields))
decode_member m null = some none
decode_member m (bool b) = none
decode_member m (number n) = none
decode_member m (text t) = none
decode_member m (array items) = none

-- The members that folds to the field, in their order; nothing if one has another type.
unfoldable pub decode_field : Text → Dict Json → Option (Dict Json) → Option (Option (Dict Json))
unfolding decode_member folds_to
decode_field field [] m = some m
decode_field field ((k, v) ∷ rest) m =
    elim (if folds_to k field then decode_member m v else some m) [
      | none ↦ none
      | some m' ↦ decode_field field rest m'
    ]

unfoldable pub decode_body : Text → Json → Option (Option (Dict Json))
unfolding decode_field entries
decode_body field (object fields) = decode_field field (entries fields) none
decode_body field null = some none
decode_body field (bool b) = none
decode_body field (number n) = none
decode_body field (text t) = none
decode_body field (array items) = none

-- The decoded map of names that a write hands on to be stored, not the rows it saves: of the
-- features the handler stores the properties inside each one. Nothing where the handler refuses
-- the body.
unfoldable pub persisted : Text → Body → Option (Dict Json)
unfolding decode_body
persisted field unreadable = none
persisted field no_json = none
persisted field (value json) = elim (decode_body field json) [ none ↦ none | some m ↦ m ]
