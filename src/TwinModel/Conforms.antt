-- ===== src/TwinModel/Conforms.antt =====
-- What it is for values to conform to a schema, apart from the loops of
-- flow-core/internal/twinmodel/validate.go.
pub mod Types
pub mod Single
pub mod Entries
pub mod Maps
pub mod Writes
use thingsflow.Base.{List, [], ◌≡◌, ◌≢◌, ◌⊎◌, Bool, true, false, Option, none, some, length, Any}
use thingsflow.Base.Text.{Text, codes, text_eq}
use thingsflow.Base.Dict.{Dict, get}
use thingsflow.Base.Int.{ℤ, pos, lt_int}
use thingsflow.Base.Json.{Json, Items, Fields, null, bool, number, text, array, object}
use thingsflow.TwinModel.{PropertySpec, FeatureSchema, DerivedSchema}
use thingsflow.TwinModel.Value.{is_integer, candidate_equal, numeric_value}
use thingsflow.TwinModel.Validate.{as_map}

-- The value has the type of the name.
abbrev pub HasType : Text → Json → Type 0
HasType kind v =
    ((kind ≡ codes "string") × (t : Text) × (v ≡ text t))
    ⊎ ((kind ≡ codes "boolean") × (b : Bool) × (v ≡ bool b))
    ⊎ ((kind ≡ codes "object") × (fs : Fields) × (v ≡ object fs))
    ⊎ ((kind ≡ codes "array") × (is : Items) × (v ≡ array is))
    ⊎ ((kind ≡ codes "number") × (n : ℤ) × (v ≡ number n))
    ⊎ ((kind ≡ codes "integer") × (n : ℤ) × (v ≡ number n) × (is_integer n ≡ true))

-- The number is within the bounds that there are.
abbrev pub Within : ℤ → Option ℤ → Option ℤ → Type 0
Within n low high =
    ((m : ℤ) → low ≡ some m → lt_int n m ≡ false) × ((m : ℤ) → high ≡ some m → lt_int m n ≡ false)

-- The value equals one that is allowed: as a number, or deeply.
abbrev pub Allowed : List Json → Json → Type 0
Allowed enum v =
    (enum ≡ []) ⊎ Any (λ c. candidate_equal c v (numeric_value c) (numeric_value v) ≡ true) enum

module _ (matches : Text → Text → Bool) where
  -- The value satisfies every constraint of the property.
  abbrev pub Fits : PropertySpec → Json → Type 0
  Fits spec v =
      HasType spec.type v
      × Allowed spec.enum v
      × ((n : ℤ) → v ≡ number n → Within n spec.minimum spec.maximum)
      × ((t : Text)
          → v ≡ text t
          → Within (pos (length t)) spec.min_length spec.max_length
            × ((spec.pattern ≡ []) ⊎ (matches spec.pattern t ≡ true)))

  -- A value that is there is null or fits; one that is not there is not required, where the values
  -- are to be complete.
  abbrev pub Accepts : PropertySpec → Bool → Option Json → Type 0
  Accepts spec complete o =
      ((v : Json) → o ≡ some v → (v ≡ null) ⊎ Fits spec v)
      × (o ≡ none → complete ≡ true → spec.required ≡ false)

  -- Every property of the schema accepts its value, and every key is declared, where unknown keys
  -- are rejected.
  abbrev pub MapConforms : Dict PropertySpec → Dict Json → Bool → Bool → Type 0
  MapConforms schema values complete reject =
      ((key : Text) (spec : PropertySpec)
        → get schema key ≡ some spec
        → Accepts spec complete (get values key))
      × (reject ≡ true
          → (key : Text) (v : Json) → get values key ≡ some v
          → (spec : PropertySpec) × (get schema key ≡ some spec))

  -- The attributes conform, and the reported and the desired properties of every feature but the
  -- telemetry.
  abbrev pub Conforms : DerivedSchema → Dict Json → Bool → Type 0
  Conforms schema values complete =
      MapConforms schema.attributes (as_map (get values (codes "attributes"))) complete false
      × ((name : Text) (feature : FeatureSchema)
          → get schema.features name ≡ some feature
          → name ≢ codes "telemetry"
          → (MapConforms feature.properties
                (as_map (
                  get (as_map (get (as_map (get values (codes "features"))) name))
                    (codes "properties")))
                complete (text_eq schema.unknown_keys (codes "reject"))
              × MapConforms feature.desired_properties
                  (as_map (
                    get (as_map (get (as_map (get values (codes "features"))) name))
                      (codes "desiredProperties")))
                  complete (text_eq schema.unknown_keys (codes "reject"))))
