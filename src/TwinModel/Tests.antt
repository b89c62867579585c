-- ===== src/TwinModel/Tests.antt =====
-- Runs and instances of the theorems on the validation.
use thingsflow.Base.{◌≡◌, ◌↔◌, ◌⊎◌, refl, Bool, true, false, none, some, [], ◌∷◌}
use thingsflow.Base.Text.{Text, codes, text_eq, to_upper, trim_space}
use thingsflow.Base.Dict.{Dict}
use thingsflow.Base.Int.{pos}
use thingsflow.Base.Json.{Json, Fields, null, number, object, field, end}
use thingsflow.TwinModel.{PropertySpec, DerivedSchema, at_most}
use thingsflow.TwinModel.Value.{pointer}
use thingsflow.TwinModel.Validate.{validate, validate_property_map}
use thingsflow.TwinModel.Enforcement.{
  Models, Registration, decoded, validate_attributes, is_accepted, find_registration,
}
use thingsflow.TwinModel.Conforms.{Conforms}
use thingsflow.TwinModel.Conforms.Maps.{validate_iff}
use thingsflow.TwinModel.Conforms.Writes.{validate-written, written}
use thingsflow.TwinModel.Pinned.{validate_attributes_iff, PinPermits}

-- No pattern matches.
abbrev no_matches : Text → Text → Bool
no_matches pattern t = false

abbrev level : PropertySpec
level = record {
  type = codes "number";
  enum = [];
  minimum = some (pos 2);
  maximum = some (pos 9);
  min_length = none;
  max_length = none;
  pattern = [];
  required = true;
}

abbrev specs : Dict PropertySpec
specs = (codes "level", level) ∷ []

abbrev schema : DerivedSchema
schema = record {
  model_id = codes "tank";
  version = codes "1.0.0";
  kind = codes "ASSET";
  unknown_keys = codes "reject";
  enforcement_mode = codes "reject";
  attributes = specs;
  features = [];
  relationships = [];
}

abbrev full : Dict Json
full = (codes "level", number (pos 5)) ∷ []

abbrev change : Dict Json
change = (codes "level", number (pos 7)) ∷ []

full_valid : validate_property_map no_matches specs full [] true true ≡ []
unfolding validate_property_map
full_valid = refl

change_valid : validate_property_map no_matches specs change [] false true ≡ []
unfolding validate_property_map
change_valid = refl

-- A value above the maximum is reported.
too_high :
    validate_property_map no_matches specs
      ((codes "level", number (pos 10)) ∷ [])
      (codes "/a/")
      false
      true
    ≡ record {
      pointer = codes "a/level";
      keyword = codes "maximum";
      message = at_most (pos 9);
      got = number (pos 10);
    }
      ∷ []
unfolding validate_property_map pointer
too_high = refl

escapes : pointer (codes "/features/") (codes "a/b~c" ∷ [] ∷ []) ≡ codes "features/a~1b~0c"
unfolding pointer text_eq
escapes = refl

validate-written_example :
    validate_property_map no_matches specs (written full change) [] true true ≡ []
validate-written_example =
    validate-written no_matches specs full change [] [] [] true full_valid change_valid

validate_iff_example :
    (validate no_matches schema []
        ((codes "attributes", object (field (codes "level") null end)) ∷ [])
        true
      ≡ [])
    ↔ Conforms no_matches schema
        ((codes "attributes", object (field (codes "level") null end)) ∷ [])
        true
validate_iff_example =
    validate_iff no_matches schema []
      ((codes "attributes", object (field (codes "level") null end)) ∷ []) true

abbrev tank : Registration
tank = record {
  tenant_id = codes "t1";
  entity_type = codes "ASSET";
  entity_id = codes "a1";
  model_id = some (codes "tank");
  model_version = some (codes "1.0.0");
}

abbrev models : Models
models = record {
  ready = true;
  answered = true;
  registry = tank ∷ [];
  models =
      record {
        tenant_id = codes "t1";
        model_id = codes "tank";
        version = codes "1.0.0";
        schema = decoded schema;
      }
      ∷ [];
}

abbrev low : Fields
low = field (codes "level") (number (pos 1)) end

-- A write below the minimum is rejected.
too_low :
    is_accepted
      (validate_attributes no_matches models (codes "t1") (codes " asset") (codes "a1") low)
    ≡ false
unfolding validate_attributes is_accepted
too_low = refl

validate_attributes_iff_example :
    (is_accepted
        (validate_attributes no_matches models (codes "t1") (codes "ASSET") (codes "a1") low)
      ≡ true)
    ↔ (((to_upper (trim_space (codes "ASSET")) ≡ codes "DEVICE")
          ⊎ (to_upper (trim_space (codes "ASSET")) ≡ codes "ASSET"))
        × (true ≡ true)
        × (true ≡ true)
        × ((find_registration
                (codes "t1")
                (to_upper (trim_space (codes "ASSET")))
                (codes "a1")
                (tank ∷ [])
              ≡ none)
            ⊎ ((r : Registration) × (find_registration
                    (codes "t1")
                    (to_upper (trim_space (codes "ASSET")))
                    (codes "a1")
                    (tank ∷ [])
                  ≡ some r)
                × PinPermits no_matches models
                    (to_upper (trim_space (codes "ASSET")))
                    low
                    r.tenant_id
                    r.model_id
                    r.model_version)))
validate_attributes_iff_example =
    validate_attributes_iff no_matches models (codes "t1") (codes "ASSET") (codes "a1") low
