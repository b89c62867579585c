-- ===== src/TwinModel/Value.antt =====
-- The tests on one value in flow-core/internal/twinmodel/validate.go.
use thingsflow.Base.{
  ℕ, suc, ◌%◌, ◌^◌, List, [], ◌∷◌, ◌++◌, Bool, true, false, ◌&&◌, ◌||◌, not, Option, none, some,
  ◌==◌, if◌then◌else◌, length,
}
use thingsflow.Base.Text.{Text, codes, text_eq, trim, join}
use thingsflow.Base.Dict.{get}
use thingsflow.Base.Int.{ℤ, pos, negsuc, eq_int, lt_int}
use thingsflow.Base.Json.{
  Json, Items, Fields, null, bool, number, text, array, object, nil, item, end, field, entries,
}
use thingsflow.TwinModel.{
  PropertySpec, Message, expected, not_allowed, at_least, at_most, length_at_least, length_at_most,
  no_match, Violation,
}

-- `strings.ReplaceAll` of one code point.
unfoldable pub replace_all : ℕ → Text → Text → Text
replace_all c by [] = []
replace_all c by (d ∷ s) = let rest = replace_all c by s in if d == c then by ++ rest else d ∷ rest

unfoldable pub escaped : List Text → List Text
unfolding replace_all
escaped [] = []
escaped (part ∷ parts) =
    let rest = escaped parts in
    if text_eq part []
    then rest
    else replace_all 47 (codes "~1") (replace_all 126 (codes "~0") part) ∷ rest

unfoldable pub with_base : Text → List Text → List Text
with_base base out = if text_eq base [] then out else base ∷ out

-- `pointer`
unfoldable pub pointer : Text → List Text → Text
unfolding with_base escaped trim join
pointer base parts = join (codes "/") (with_base (trim (λ c. c == 47) base) (escaped parts))

-- `numericValue`
unfoldable pub numeric_value : Json → Option ℤ
numeric_value (number n) = some n
numeric_value null = none
numeric_value (bool b) = none
numeric_value (text t) = none
numeric_value (array items) = none
numeric_value (object fields) = none

-- `math.Trunc(number) == number`, on a count of 2^-1074.
unfoldable pub is_integer : ℤ → Bool
is_integer (pos n) = (n % (2 ^ 1074)) == 0
is_integer (negsuc n) = (suc n % (2 ^ 1074)) == 0

unfoldable pub is_text : Json → Bool
is_text (text t) = true
is_text null = false
is_text (bool b) = false
is_text (number n) = false
is_text (array items) = false
is_text (object fields) = false

unfoldable pub is_bool : Json → Bool
is_bool (bool b) = true
is_bool null = false
is_bool (text t) = false
is_bool (number n) = false
is_bool (array items) = false
is_bool (object fields) = false

unfoldable pub is_object : Json → Bool
is_object (object fields) = true
is_object null = false
is_object (text t) = false
is_object (number n) = false
is_object (array items) = false
is_object (bool b) = false

unfoldable pub is_array : Json → Bool
is_array (array items) = true
is_array null = false
is_array (text t) = false
is_array (number n) = false
is_array (object fields) = false
is_array (bool b) = false

unfoldable pub is_number : Option ℤ → Bool
is_number none = false
is_number (some n) = true

unfoldable pub is_whole : Option ℤ → Bool
unfolding is_integer
is_whole none = false
is_whole (some n) = is_integer n

-- `matchesType`
unfoldable pub matches_type : Text → Json → Bool
unfolding is_text is_bool is_object is_array is_number is_whole numeric_value
matches_type kind value =
    if text_eq kind (codes "string")
    then is_text value
    else if text_eq kind (codes "boolean")
    then is_bool value
    else if text_eq kind (codes "object")
    then is_object value
    else if text_eq kind (codes "array")
    then is_array value
    else if text_eq kind (codes "number")
    then is_number (numeric_value value)
    else if text_eq kind (codes "integer")
    then is_whole (numeric_value value)
    else false

unfoldable pub eq_bool : Bool → Bool → Bool
eq_bool true b = b
eq_bool false b = not b

unfoldable pub count : Fields → ℕ
count end = 0
count (field k v rest) = suc (count rest)

-- `reflect.DeepEqual`: objects are compared as maps.
unfoldable mutual
  unfolding eq_bool eq_int count entries get text_eq

  pub deep_equal : Json → Json → Bool
  deep_equal null b = elim b [ null ↦ true | _ ↦ false ]
  deep_equal (bool x) b = elim b [ bool y ↦ eq_bool x y | _ ↦ false ]
  deep_equal (number x) b = elim b [ number y ↦ eq_int x y | _ ↦ false ]
  deep_equal (text x) b = elim b [ text y ↦ text_eq x y | _ ↦ false ]
  deep_equal (array x) b = elim b [ array y ↦ items_equal x y | _ ↦ false ]
  deep_equal (object x) b = elim b [ object y ↦ (count x == count y) && fields_in x y | _ ↦ false ]

  pub items_equal : Items → Items → Bool
  items_equal nil b = elim b [ nil ↦ true | item w ws ↦ false ]
  items_equal (item v vs) b = elim b [
    | nil ↦ false
    | item w ws ↦ deep_equal v w && items_equal vs ws
  ]

  pub fields_in : Fields → Fields → Bool
  fields_in end b = true
  fields_in (field k v rest) b =
      elim (get (entries b) k) [ none ↦ false | some w ↦ deep_equal v w ] && fields_in rest b

-- The comparison of a candidate: numbers by value, all else deeply.
unfoldable pub candidate_equal : Json → Json → Option ℤ → Option ℤ → Bool
unfolding eq_int deep_equal
candidate_equal candidate got (some a) (some b) = eq_int a b
candidate_equal candidate got (some a) none = deep_equal candidate got
candidate_equal candidate got none b = deep_equal candidate got

-- `enumContains`
unfoldable pub enum_contains : List Json → Json → Bool
unfolding candidate_equal numeric_value
enum_contains [] got = false
enum_contains (candidate ∷ allowed) got =
    candidate_equal candidate got (numeric_value candidate) (numeric_value got)
    || enum_contains allowed got

-- One violation if a test says so.
unfoldable pub flag : Bool → Text → Text → Message → Json → List Violation
flag false path keyword message got = []
flag true path keyword message got =
    record { pointer = path; keyword = keyword; message = message; got = got } ∷ []

unfoldable pub lower_check : Text → Text → (ℤ → Message) → Json → ℤ → Option ℤ → List Violation
unfolding flag lt_int
lower_check path keyword message got n none = []
lower_check path keyword message got n (some m) = flag (lt_int n m) path keyword (message m) got

unfoldable pub upper_check : Text → Text → (ℤ → Message) → Json → ℤ → Option ℤ → List Violation
unfolding flag lt_int
upper_check path keyword message got n none = []
upper_check path keyword message got n (some m) = flag (lt_int m n) path keyword (message m) got

unfoldable pub number_checks : PropertySpec → Text → Json → Option ℤ → List Violation
unfolding lower_check upper_check
number_checks spec path got none = []
number_checks spec path got (some n) =
    lower_check path (codes "minimum") at_least got n spec.minimum
    ++ upper_check path (codes "maximum") at_most got n spec.maximum

unfoldable pub is_nil : List Json → Bool
is_nil [] = true
is_nil (x ∷ xs) = false

module _ (matches : Text → Text → Bool) where
  unfoldable pub text_checks : PropertySpec → Text → Json → List Violation
  unfolding lower_check upper_check flag text_eq
  text_checks spec path (text t) =
      lower_check path (codes "minLength") length_at_least (text t) (pos (length t)) spec.min_length
      ++ (upper_check path (codes "maxLength") length_at_most (text t) (pos (length t))
            spec.max_length
          ++ flag (not (text_eq spec.pattern []) && not (matches spec.pattern t)) path
              (codes "pattern") no_match (text t))
  text_checks spec path null = []
  text_checks spec path (bool b) = []
  text_checks spec path (number n) = []
  text_checks spec path (array items) = []
  text_checks spec path (object fields) = []

  -- `validateValue`
  unfoldable pub validate_value : PropertySpec → Text → Json → List Violation
  unfolding flag matches_type enum_contains number_checks numeric_value text_checks is_nil
  validate_value spec path value =
      flag (not (matches_type spec.type value)) path (codes "type") (expected spec.type) value
      ++ (flag (not (is_nil spec.enum) && not (enum_contains spec.enum value)) path (codes "enum")
            not_allowed value
          ++ (number_checks spec path value (numeric_value value) ++ text_checks spec path value))
