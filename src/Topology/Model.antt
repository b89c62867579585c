-- ===== src/Topology/Model.antt =====
-- The check of an edge against the models of its ends in flow-core/internal/topology/topology.go.
use thingsflow.Base.{
  List, [], ◌∷◌, ◌++◌, Bool, true, false, not, ◌&&◌, ◌||◌, Option, none, some, if◌then◌else◌,
}
use thingsflow.Base.Text.{Text, codes, text_eq, contains, to_lower, trim_space}
use thingsflow.Base.Dict.{get}
use thingsflow.Base.Result.{Result, ok, err, ◌>>=◌}
use thingsflow.TwinModel.{DerivedSchema, RelationshipSchema}
use thingsflow.TwinModel.Enforcement.{
  Registration, ModelRow, Stored, decoded, undecodable, find_registration, find_model,
}
use thingsflow.Topology.{
  EntityRef, Edge, Catalog, RelationType, TopologyError, invalid_relation_type, broken_pin,
  not_allowed_by_model, bidirectional,
}

-- `modelPin`, where it is present.
pub record ModelPin : Type 0 where
  pub model_id : Text
  pub version : Text
  pub schema : DerivedSchema

unfoldable pub decode_pin :
    EntityRef → Text → Text → Option Stored → Result TopologyError (Option ModelPin)
unfolding text_eq
decode_pin ref id version none = err broken_pin
decode_pin ref id version (some undecodable) = err broken_pin
decode_pin ref id version (some (decoded schema)) =
    if text_eq schema.model_id id
      && (text_eq schema.version version && text_eq schema.kind ref.type)
    then ok (some (record { model_id = id; version = version; schema = schema }))
    else err broken_pin

unfoldable pub pin_of :
    List ModelRow
    → Text
    → EntityRef
    → Option Text
    → Option Text
    → Result TopologyError (Option ModelPin)
unfolding decode_pin find_model
pin_of models tenant ref none none = ok none
pin_of models tenant ref none (some version) = err broken_pin
pin_of models tenant ref (some id) none = err broken_pin
pin_of models tenant ref (some id) (some version) =
    decode_pin ref id version (find_model tenant id version models)

unfoldable pub registered_pin :
    List ModelRow → EntityRef → Option Registration → Result TopologyError (Option ModelPin)
unfolding pin_of
registered_pin models ref none = ok none
registered_pin models ref (some r) = pin_of models r.tenant_id ref r.model_id r.model_version

-- `loadModelPin`
unfoldable pub load_model_pin : Catalog → Text → EntityRef → Result TopologyError (Option ModelPin)
unfolding registered_pin find_registration
load_model_pin c tenant ref =
    registered_pin c.models ref (find_registration tenant ref.type ref.id c.registry)

pub data RelationViolation : Type 0 where
  undeclared_relation : RelationViolation
  target_model : RelationViolation
  target_type : RelationViolation
  one_way : RelationViolation

unfoldable pub when : Bool → RelationViolation → List RelationViolation
when true v = v ∷ []
when false v = []

unfoldable pub declared_violations :
    Option RelationshipSchema → Text → Text → Bool → List RelationViolation
unfolding when contains
declared_violations none model_id type both = undeclared_relation ∷ []
declared_violations (some r) model_id type both =
    when (not (contains r.target model_id)) target_model
    ++ (when (not (contains r.target_entity_types type)) target_type
        ++ when (both && not r.bidirectional) one_way)

-- `relationshipViolations`
unfoldable pub relationship_violations :
    ModelPin → Text → ModelPin → Text → Bool → List RelationViolation
unfolding declared_violations get
relationship_violations source relation_type target kind both =
    declared_violations (get source.schema.relationships relation_type) target.model_id kind both

-- `relationEnforcementMode`, whether it is `reject`.
unfoldable pub rejects : Catalog → Bool
unfolding to_lower trim_space text_eq
rejects c = text_eq (to_lower (trim_space c.relation_enforce)) (codes "reject")

unfoldable pub is_bidirectional : Edge → Bool
unfolding text_eq
is_bidirectional e = text_eq e.direction bidirectional

unfoldable pub judge : Bool → List RelationViolation → Result TopologyError (Unit {0})
judge refuse [] = ok tt
judge refuse (v ∷ vs) = if refuse then err not_allowed_by_model else ok tt

unfoldable pub enforce_pins :
    Catalog → Edge → Option ModelPin → Option ModelPin → Result TopologyError (Unit {0})
unfolding relationship_violations is_bidirectional rejects judge
enforce_pins c e none target = ok tt
enforce_pins c e (some source) none = ok tt
enforce_pins c e (some source) (some target) =
    let both = is_bidirectional e in
    judge (both || rejects c) (
      relationship_violations source e.relation_type target e.to.type both
      ++ (if both
          then relationship_violations target e.relation_type source e.from.type true
          else []))

-- `enforceModelRelation`
unfoldable pub enforce_model_relation : Catalog → Edge → Result TopologyError (Unit {0})
unfolding load_model_pin enforce_pins
enforce_model_relation c e = do
  source ← load_model_pin c e.tenant_id e.from
  target ← load_model_pin c e.tenant_id e.to
  enforce_pins c e source target

unfoldable pub find_relation_type : Text → List RelationType → Option RelationType
unfolding text_eq
find_relation_type name [] = none
find_relation_type name (t ∷ rest) =
    if text_eq t.name name then some t else find_relation_type name rest

unfoldable pub permits_ends : Text → Text → Option RelationType → Bool
unfolding contains
permits_ends from to none = false
permits_ends from to (some t) = contains t.allowed_from_types from && contains t.allowed_to_types to

-- `validateRelationType`
unfoldable pub validate_relation_type :
    Catalog → Text → EntityRef → EntityRef → Result TopologyError (Unit {0})
unfolding permits_ends find_relation_type
validate_relation_type c relation_type from to =
    if permits_ends from.type to.type (find_relation_type relation_type c.relation_types)
    then ok tt
    else err invalid_relation_type
