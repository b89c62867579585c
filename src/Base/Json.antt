-- ===== src/Base/Json.antt =====
-- JSON values as `encoding/json` decodes them into `interface{}`. A number is a finite float64, as
-- an integer count of its smallest unit, 2^-1074; every finite float64 is such a multiple.
use thingsflow.Base.Int.{ℤ}
use thingsflow.Base.Text.{Text}
use thingsflow.Base.Dict.{Dict}
use mathlib.Core.Bool.{Bool}
use mathlib.Core.List.{[], ◌∷◌}

mutual
  pub data Json : Type 0 where
    null : Json
    bool : Bool → Json
    number : ℤ → Json
    text : Text → Json
    array : Items → Json
    object : Fields → Json

  pub data Items : Type 0 where
    nil : Items
    item : Json → Items → Items

  pub data Fields : Type 0 where
    end : Fields
    field : Text → Json → Fields → Fields

-- The entries of an object.
unfoldable pub entries : Fields → Dict Json
entries end = []
entries (field k v rest) = (k, v) ∷ entries rest
