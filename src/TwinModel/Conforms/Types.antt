-- ===== src/TwinModel/Conforms/Types.antt =====
-- The types of the properties: the switch of `matchesType` in
-- flow-core/internal/twinmodel/validate.go.
use thingsflow.Base.{◌≡◌, ◌↔◌, refl, inl, inr, Bool, true, Bool-cases}
use thingsflow.Base.Text.{Text, codes, text_eq, text_eq_iff}
use thingsflow.Base.Int.{ℤ}
use thingsflow.Base.Json.{Json, Items, Fields, null, bool, number, text, array, object}
use thingsflow.TwinModel.Value.{
  matches_type, numeric_value, is_text, is_bool, is_object, is_array, is_number, is_whole,
  is_integer,
}
use thingsflow.TwinModel.Conforms.{HasType}

of_text : (v : Json) → is_text v ≡ true → (t : Text) × (v ≡ text t)
unfolding is_text
of_text null h = cc h
of_text (bool b) h = cc h
of_text (number n) h = cc h
of_text (text t) h = (t, refl)
of_text (array is) h = cc h
of_text (object fs) h = cc h

of_bool : (v : Json) → is_bool v ≡ true → (b : Bool) × (v ≡ bool b)
unfolding is_bool
of_bool null h = cc h
of_bool (bool b) h = (b, refl)
of_bool (number n) h = cc h
of_bool (text t) h = cc h
of_bool (array is) h = cc h
of_bool (object fs) h = cc h

of_object : (v : Json) → is_object v ≡ true → (fs : Fields) × (v ≡ object fs)
unfolding is_object
of_object null h = cc h
of_object (bool b) h = cc h
of_object (number n) h = cc h
of_object (text t) h = cc h
of_object (array is) h = cc h
of_object (object fs) h = (fs, refl)

of_array : (v : Json) → is_array v ≡ true → (is : Items) × (v ≡ array is)
unfolding is_array
of_array null h = cc h
of_array (bool b) h = cc h
of_array (number n) h = cc h
of_array (text t) h = cc h
of_array (array is) h = (is, refl)
of_array (object fs) h = cc h

of_number : (v : Json) → is_number (numeric_value v) ≡ true → (n : ℤ) × (v ≡ number n)
unfolding is_number numeric_value
of_number null h = cc h
of_number (bool b) h = cc h
of_number (number n) h = (n, refl)
of_number (text t) h = cc h
of_number (array is) h = cc h
of_number (object fs) h = cc h

of_whole :
    (v : Json)
    → is_whole (numeric_value v) ≡ true
    → (n : ℤ) × (v ≡ number n) × (is_integer n ≡ true)
unfolding is_whole numeric_value
of_whole null h = cc h
of_whole (bool b) h = cc h
of_whole (number n) h = (n, refl, h)
of_whole (text t) h = cc h
of_whole (array is) h = cc h
of_whole (object fs) h = cc h

matches_type-HasType : (kind : Text) (v : Json) → matches_type kind v ≡ true → HasType kind v
unfolding matches_type
matches_type-HasType kind v h = elim (Bool-cases (text_eq kind (codes "string"))) [
  | inl e ↦ let (t, q) = of_text v (rw e at h) in inl (is e, t, q)
  | inr e ↦ inr (elim (Bool-cases (text_eq kind (codes "boolean"))) [
    | inl f ↦ let (t, q) = of_bool v (rw (e, f) at h) in inl (is f, t, q)
    | inr f ↦ inr (elim (Bool-cases (text_eq kind (codes "object"))) [
      | inl g ↦ let (t, q) = of_object v (rw (e, f, g) at h) in inl (is g, t, q)
      | inr g ↦ inr (elim (Bool-cases (text_eq kind (codes "array"))) [
        | inl a ↦ let (t, q) = of_array v (rw (e, f, g, a) at h) in inl (is a, t, q)
        | inr a ↦ inr (elim (Bool-cases (text_eq kind (codes "number"))) [
          | inl b ↦ let (t, q) = of_number v (rw (e, f, g, a, b) at h) in inl (is b, t, q)
          | inr b ↦ inr (elim (Bool-cases (text_eq kind (codes "integer"))) [
            | inl c ↦ let (t, q, w) = of_whole v (rw (e, f, g, a, b, c) at h) in (is c, t, q, w)
            | inr c ↦ cc (rw (e, f, g, a, b, c) at h)
          ])
        ])
      ])
    ])
  ])
]
  where
    is : {name : Text} → text_eq kind name ≡ true → kind ≡ name
    is {name} e = (text_eq_iff kind name).0 e

HasType-matches_type : (kind : Text) (v : Json) → HasType kind v → matches_type kind v ≡ true
unfolding matches_type numeric_value is_text is_bool is_object is_array is_number is_whole text_eq
HasType-matches_type kind v (inl (k, t, e)) = rw (k, e) refl
HasType-matches_type kind v (inr (inl (k, t, e))) = rw (k, e) refl
HasType-matches_type kind v (inr (inr (inl (k, t, e)))) = rw (k, e) refl
HasType-matches_type kind v (inr (inr (inr (inl (k, t, e))))) = rw (k, e) refl
HasType-matches_type kind v (inr (inr (inr (inr (inl (k, t, e)))))) = rw (k, e) refl
HasType-matches_type kind v (inr (inr (inr (inr (inr (k, t, e, i)))))) = rw (k, e) i

-- `matchesType` is true exactly if the value has the type.
pub matches_type_iff : (kind : Text) (v : Json) → (matches_type kind v ≡ true) ↔ HasType kind v
matches_type_iff kind v = (matches_type-HasType kind v, HasType-matches_type kind v)
