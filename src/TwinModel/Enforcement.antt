-- ===== src/TwinModel/Enforcement.antt =====
-- `ValidateAttributes` of flow-core/internal/twinmodel/enforce.go: the check of a write of attributes
-- against the model that the entity is pinned to. The text of a violation and the counter of the
-- accepted ones are left out.
use thingsflow.Base.{
  List, [], ◌∷◌, Bool, true, false, not, ◌&&◌, ◌||◌, Option, none, some, if◌then◌else◌,
}
use thingsflow.Base.Text.{Text, codes, text_eq, to_upper, trim_space}
use thingsflow.Base.Json.{Fields, object}
use thingsflow.TwinModel.{DerivedSchema, Violation}
use thingsflow.TwinModel.Validate.{validate}

-- A row of `twin_registry`, whose model columns may be null.
pub record Registration : Type 0 where
  pub tenant_id : Text
  pub entity_type : Text
  pub entity_id : Text
  pub model_id : Option Text
  pub model_version : Option Text

-- The column `schema`: it decodes into a schema, or it does not.
pub data Stored : Type 0 where
  decoded : DerivedSchema → Stored
  undecodable : Stored

-- A row of `twin_model`.
pub record ModelRow : Type 0 where
  pub tenant_id : Text
  pub model_id : Text
  pub version : Text
  pub schema : Stored

-- Whether there is a database and whether it answers, and the tables.
pub record Models : Type 0 where
  pub ready : Bool
  pub answered : Bool
  pub registry : List Registration
  pub models : List ModelRow

-- A nil error, without or with violations that are only reported, or an error.
pub data Outcome : Type 0 where
  allowed : Outcome
  warned : List Violation → Outcome
  rejected : List Violation → Outcome
  invalid_category : Outcome
  no_database : Outcome
  lookup_failed : Outcome
  invalid_pin : Outcome
  dangling_pin : Outcome
  invalid_schema : Outcome
  wrong_identity : Outcome
  invalid_mode : Outcome

unfoldable pub find_registration : Text → Text → Text → List Registration → Option Registration
find_registration tenant entity_type id [] = none
find_registration tenant entity_type id (r ∷ rows) =
    if text_eq r.tenant_id tenant && (text_eq r.entity_type entity_type && text_eq r.entity_id id)
    then some r
    else find_registration tenant entity_type id rows

-- The joined row of `twin_model`.
unfoldable pub find_model : Text → Text → Text → List ModelRow → Option Stored
find_model tenant model_id version [] = none
find_model tenant model_id version (m ∷ rows) =
    if text_eq m.tenant_id tenant && (text_eq m.model_id model_id && text_eq m.version version)
    then some m.schema
    else find_model tenant model_id version rows

unfoldable pub is_blank : Text → Bool
unfolding trim_space text_eq
is_blank t = text_eq (trim_space t) []

-- The schema's mode, which defaults to `warn`.
unfoldable pub effective_mode : DerivedSchema → Text
unfolding is_blank
effective_mode schema =
    if is_blank schema.enforcement_mode then codes "warn" else trim_space schema.enforcement_mode

unfoldable pub conclude : Text → List Violation → Outcome
conclude mode [] = allowed
conclude mode (v ∷ vs) =
    if text_eq mode (codes "reject") then rejected (v ∷ vs) else warned (v ∷ vs)

module _ (matches : Text → Text → Bool) where
  unfoldable pub check_mode : DerivedSchema → Fields → Text → Outcome
  unfolding validate conclude
  check_mode schema values mode =
      if text_eq mode (codes "warn") || text_eq mode (codes "reject")
      then conclude mode
          (validate matches schema [] ((codes "attributes", object values) ∷ []) false)
      else invalid_mode

  unfoldable pub check_schema : Text → Fields → Text → Text → Option Stored → Outcome
  unfolding check_mode effective_mode
  check_schema entity_type values model_id version none = dangling_pin
  check_schema entity_type values model_id version (some undecodable) = invalid_schema
  check_schema entity_type values model_id version (some (decoded schema)) =
      if text_eq schema.model_id model_id
        && (text_eq schema.version version && text_eq schema.kind entity_type)
      then check_mode schema values (effective_mode schema)
      else wrong_identity

  unfoldable pub check_pin : Models → Text → Fields → Text → Option Text → Option Text → Outcome
  unfolding check_schema find_model is_blank
  check_pin db entity_type values tenant none none = allowed
  check_pin db entity_type values tenant none (some version) = invalid_pin
  check_pin db entity_type values tenant (some model_id) none = invalid_pin
  check_pin db entity_type values tenant (some model_id) (some version) =
      if is_blank model_id || is_blank version
      then invalid_pin
      else check_schema entity_type values model_id version
          (find_model tenant model_id version db.models)

  unfoldable pub check_registration : Models → Text → Fields → Option Registration → Outcome
  unfolding check_pin
  check_registration db entity_type values none = allowed
  check_registration db entity_type values (some r) =
      check_pin db entity_type values r.tenant_id r.model_id r.model_version

  -- `ValidateAttributes`
  unfoldable pub validate_attributes : Models → Text → Text → Text → Fields → Outcome
  unfolding check_registration find_registration to_upper trim_space
  validate_attributes db tenant entity_type entity_id values =
      let kind = to_upper (trim_space entity_type) in
      if not (text_eq kind (codes "DEVICE")) && not (text_eq kind (codes "ASSET"))
      then invalid_category
      else if not db.ready
      then no_database
      else if not db.answered
      then lookup_failed
      else check_registration db kind values (find_registration tenant kind entity_id db.registry)

-- The error is nil.
unfoldable pub is_accepted : Outcome → Bool
is_accepted allowed = true
is_accepted (warned vs) = true
is_accepted (rejected vs) = false
is_accepted invalid_category = false
is_accepted no_database = false
is_accepted lookup_failed = false
is_accepted invalid_pin = false
is_accepted dangling_pin = false
is_accepted invalid_schema = false
is_accepted wrong_identity = false
is_accepted invalid_mode = false
