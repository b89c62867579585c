-- ===== src/TwinModel.antt =====
-- The models of twins, flow-core/internal/twinmodel: the schema that is derived of a model
-- (model.go), the validation of a twin's values against it (validate.go) and the check of a write
-- (enforce.go). A value is what `encoding/json` decodes, whose numbers are float64; the entries of
-- an object stand for a Go map, where a key's entry is the first one. The engine of the regular
-- expressions is the parameter `matches`: whether a pattern, which `Normalize` has compiled,
-- matches a text.
pub mod Value
pub mod Validate
pub mod Conforms
pub mod Enforcement
pub mod Permits
pub mod Pinned
mod Tests
use thingsflow.Base.{ℕ, List, [], Bool, Option}
use thingsflow.Base.Text.{Text}
use thingsflow.Base.Dict.{Dict}
use thingsflow.Base.Int.{ℤ}
use thingsflow.Base.Json.{Json}

-- What the validation reads of a property. A bound is a float64, a length an int.
pub record PropertySpec : Type 0 where
  pub type : Text
  pub enum : List Json
  pub minimum : Option ℤ
  pub maximum : Option ℤ
  pub min_length : Option ℤ
  pub max_length : Option ℤ
  pub pattern : Text
  pub required : Bool

pub record FeatureSchema : Type 0 where
  pub definition : Text
  pub properties : Dict PropertySpec
  pub desired_properties : Dict PropertySpec

-- What a model says of the relations of one type that leave its entities.
pub record RelationshipSchema : Type 0 where
  pub target : List Text
  pub target_entity_types : List Text
  pub bidirectional : Bool

-- The maximum cardinality of a relationship, which no check reads, is left out.
pub record DerivedSchema : Type 0 where
  pub model_id : Text
  pub version : Text
  pub kind : Text
  pub unknown_keys : Text
  pub enforcement_mode : Text
  pub attributes : Dict PropertySpec
  pub features : Dict FeatureSchema
  pub relationships : Dict RelationshipSchema

-- The text of a violation, with what is printed into it.
pub data Message : Type 0 where
  undeclared : Message
  missing : Message
  expected : Text → Message
  not_allowed : Message
  at_least : ℤ → Message
  at_most : ℤ → Message
  length_at_least : ℤ → Message
  length_at_most : ℤ → Message
  no_match : Message

pub record Violation : Type 0 where
  pub pointer : Text
  pub keyword : Text
  pub message : Message
  pub got : Json
