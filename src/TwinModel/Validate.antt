-- ===== src/TwinModel/Validate.antt =====
-- The validation of maps of values in flow-core/internal/twinmodel/validate.go.
use thingsflow.Base.{
  List, [], ◌∷◌, ◌++◌, Bool, true, false, ◌&&◌, not, Option, none, some, if◌then◌else◌,
}
use thingsflow.Base.Text.{Text, codes, text_eq}
use thingsflow.Base.Dict.{Dict, get, keys}
use thingsflow.Base.Sort.{sort_by, text_leb}
use thingsflow.Base.Json.{Json, null, bool, number, text, array, object, entries}
use thingsflow.TwinModel.{
  PropertySpec, FeatureSchema, DerivedSchema, undeclared, missing, Violation,
}
use thingsflow.TwinModel.Value.{pointer, flag, validate_value}

unfoldable pub sorted_keys : {V : Type 0} → Dict V → List Text
unfolding sort_by keys
sorted_keys m = sort_by (λ k. k) (keys m)

unfoldable pub is_present : {V : Type 0} → Option V → Bool
is_present none = false
is_present (some v) = true

unfoldable pub or_null : Option Json → Json
or_null none = null
or_null (some v) = v

-- The loop over the keys of the values that the schema may not have.
unfoldable pub unknown_violations :
    Dict PropertySpec → Dict Json → Text → List Text → List Violation
unfolding flag get is_present or_null
unknown_violations schema values path [] = []
unknown_violations schema values path (key ∷ ks) =
    flag (not (is_present (get schema key))) (pointer path (key ∷ [])) (codes "unknown") undeclared
      (or_null (get values key))
    ++ unknown_violations schema values path ks

unfoldable pub is_null : Json → Bool
is_null null = true
is_null (bool b) = false
is_null (number n) = false
is_null (text t) = false
is_null (array items) = false
is_null (object fields) = false

-- The assertion `.(map[string]interface{})` on an entry, whose failure gives an empty map.
unfoldable pub as_map : Option Json → Dict Json
unfolding entries
as_map none = []
as_map (some (object fields)) = entries fields
as_map (some null) = []
as_map (some (bool b)) = []
as_map (some (number n)) = []
as_map (some (text t)) = []
as_map (some (array items)) = []

-- The order of the report.
unfoldable pub precedes : Violation → Violation → Bool
unfolding text_eq text_leb
precedes a b =
    if text_eq a.pointer b.pointer
    then text_leb a.keyword b.keyword
    else text_leb a.pointer b.pointer

unfoldable pub insert : Violation → List Violation → List Violation
unfolding precedes
insert a [] = a ∷ []
insert a (x ∷ xs) = if precedes a x then a ∷ x ∷ xs else x ∷ insert a xs

-- `sort.SliceStable`
unfoldable pub sort_stable : List Violation → List Violation
unfolding insert
sort_stable [] = []
sort_stable (x ∷ xs) = insert x (sort_stable xs)

module _ (matches : Text → Text → Bool) where
  -- The body of the loop over the schema's keys.
  unfoldable pub property_violations :
      Text → Text → Bool → Option PropertySpec → Option Json → List Violation
  unfolding flag is_null validate_value
  property_violations path key complete none value = []
  property_violations path key complete (some spec) none =
      flag (complete && spec.required) (pointer path (key ∷ [])) (codes "required") missing null
  property_violations path key complete (some spec) (some value) =
      if is_null value then [] else validate_value matches spec (pointer path (key ∷ [])) value

  unfoldable pub spec_violations :
      Dict PropertySpec → Dict Json → Text → Bool → List Text → List Violation
  unfolding property_violations get
  spec_violations schema values path complete [] = []
  spec_violations schema values path complete (key ∷ ks) =
      property_violations path key complete (get schema key) (get values key)
      ++ spec_violations schema values path complete ks

  -- `validatePropertyMap`
  unfoldable pub validate_property_map :
      Dict PropertySpec → Dict Json → Text → Bool → Bool → List Violation
  unfolding unknown_violations spec_violations sorted_keys
  validate_property_map schema values path complete reject_unknown =
      (if reject_unknown then unknown_violations schema values path (sorted_keys values) else [])
      ++ spec_violations schema values path complete (sorted_keys schema)

  -- The body of the loop over the features.
  unfoldable pub feature_violations :
      DerivedSchema → Text → Dict Json → Bool → Text → Option FeatureSchema → List Violation
  unfolding validate_property_map as_map get pointer text_eq
  feature_violations schema base features complete name none = []
  feature_violations schema base features complete name (some feature) =
      let value = as_map (get features name) in
      let reject = text_eq schema.unknown_keys (codes "reject") in
      if text_eq name (codes "telemetry")
      then []
      else validate_property_map feature.properties (as_map (get value (codes "properties")))
          (pointer base (codes "features" ∷ name ∷ codes "properties" ∷ [])) complete reject
        ++ validate_property_map feature.desired_properties
            (as_map (get value (codes "desiredProperties")))
            (pointer base (codes "features" ∷ name ∷ codes "desiredProperties" ∷ [])) complete
            reject

  unfoldable pub features_violations :
      DerivedSchema → Text → Dict Json → Bool → List Text → List Violation
  unfolding feature_violations get
  features_violations schema base features complete [] = []
  features_violations schema base features complete (name ∷ names) =
      feature_violations schema base features complete name (get schema.features name)
      ++ features_violations schema base features complete names

  -- `Validate`
  unfoldable pub validate : DerivedSchema → Text → Dict Json → Bool → List Violation
  unfolding validate_property_map features_violations sort_stable as_map get sorted_keys pointer
  validate schema base values complete = sort_stable (
      validate_property_map schema.attributes (as_map (get values (codes "attributes")))
        (pointer base (codes "attributes" ∷ [])) complete false
      ++ features_violations schema base (as_map (get values (codes "features"))) complete
          (sorted_keys schema.features))
