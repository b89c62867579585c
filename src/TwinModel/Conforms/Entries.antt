-- ===== src/TwinModel/Conforms/Entries.antt =====
-- Lemmas on the loops of flow-core/internal/twinmodel/validate.go over the entries of a map, its
-- unknown keys and the sorted report.
use thingsflow.Base.{
  List, [], ◌∷◌, ◌≡◌, ◌≢◌, ◌↔◌, refl, sym, inl, inr, Bool, true, false, not, Option, none, some,
  All, In, All-In, In-All, Bool-cases, if◌then◌else◌,
}
use thingsflow.Base.Text.{Text, codes, text_eq, text_eq_iff}
use thingsflow.Base.Dict.{Dict, get, keys}
use thingsflow.Base.Sort.{All-sort_by, sort_by-All}
use thingsflow.Base.Json.{Json, null, bool, number, text, array, object}
use thingsflow.TwinModel.{PropertySpec, Violation, undeclared}
use thingsflow.TwinModel.Value.{pointer, flag}
use thingsflow.TwinModel.Validate.{
  sorted_keys, is_present, or_null, unknown_violations, is_null, insert, sort_stable, precedes,
}
use thingsflow.TwinModel.Conforms.Single.{append_nil_iff, flag_iff}

get-In : {V : Type 0} (m : Dict V) (k : Text) (v : V) → get m k ≡ some v → In k (keys m)
unfolding get keys
get-In [] k v h = cc h
get-In ((j, w) ∷ m) k v h = elim (Bool-cases (text_eq j k)) [
  | inl e ↦ inl (sym ((text_eq_iff j k).0 e))
  | inr e ↦ inr (get-In m k v (rw e at h))
]

In-get : {V : Type 0} (m : Dict V) (k : Text) → In k (keys m) → (v : V) × (get m k ≡ some v)
unfolding get keys
In-get [] k h = elim h [ ]
In-get ((j, w) ∷ m) k h = elim (Bool-cases (text_eq j k)) [
  | inl e ↦ (w, rw e refl)
  | inr e ↦ elim h [
    | inl same ↦ cc (e, (text_eq_iff j k).1 (sym same))
    | inr later ↦ let (v, q) = In-get m k later in (v, rw e q)
  ]
]

-- A statement on every sorted key is one on every entry.
pub All-sorted_keys :
    {V : Type 0} (m : Dict V) (P : Text → Type 0)
    → All P (sorted_keys m) ↔ ((k : Text) (v : V) → get m k ≡ some v → P k)
unfolding sorted_keys
All-sorted_keys m P = (
  (λ h k v e. All-In P (keys m) (sort_by-All (λ k. k) P (keys m) h) (get-In m k v e)),
  (λ f.
      All-sort_by (λ k. k) P (keys m)
        (In-All P (keys m) (λ k i. let (v, e) = In-get m k i in f k v e))),
)

unknown_violations_iff :
    (schema : Dict PropertySpec) (values : Dict Json) (path : Text) (ks : List Text)
    → (unknown_violations schema values path ks ≡ [])
      ↔ All (λ k. (spec : PropertySpec) × (get schema k ≡ some spec)) ks
unfolding unknown_violations is_present
unknown_violations_iff schema values path [] = ((λ h. tt), (λ h. refl))
unknown_violations_iff schema values path (k ∷ ks) =
    let ih = unknown_violations_iff schema values path ks in
    let head =
      flag_iff (not (is_present (get schema k))) (pointer path (k ∷ [])) (codes "unknown")
        undeclared (or_null (get values k)) in
    let both =
      append_nil_iff
        (flag (not (is_present (get schema k))) (pointer path (k ∷ [])) (codes "unknown") undeclared
          (or_null (get values k)))
        (unknown_violations schema values path ks) in
    (
      (λ h. let (a, b) = both.0 h in (present (get schema k) (head.0 a), ih.0 b)),
      (λ h. both.1 (head.1 (declared (get schema k) h.0), ih.1 h.1)),
    )
  where
    present :
        (o : Option PropertySpec)
        → not (is_present o) ≡ false
        → (spec : PropertySpec) × (o ≡ some spec)
    present none h = cc h
    present (some spec) h = (spec, refl)

    declared :
        (o : Option PropertySpec)
        → (spec : PropertySpec) × (o ≡ some spec)
        → not (is_present o) ≡ false
    declared none h = cc (h.1)
    declared (some spec) h = refl

pub unknown_check_iff :
    (schema : Dict PropertySpec) (values : Dict Json) (path : Text) (reject : Bool)
    → ((if reject then unknown_violations schema values path (sorted_keys values) else []) ≡ []) ↔ (
        reject ≡ true
        → (key : Text) (v : Json) → get values key ≡ some v
        → (spec : PropertySpec) × (get schema key ≡ some spec))
unknown_check_iff schema values path false = ((λ h on. cc on), (λ h. refl))
unknown_check_iff schema values path true =
    let unknown = unknown_violations_iff schema values path (sorted_keys values) in
    let all = All-sorted_keys values (λ k. (spec : PropertySpec) × (get schema k ≡ some spec)) in
    ((λ h on. all.0 (unknown.0 h)), (λ h. unknown.1 (all.1 (h refl))))

pub is_null_iff : (v : Json) → (is_null v ≡ true) ↔ (v ≡ null)
unfolding is_null
is_null_iff null = ((λ h. refl), (λ h. refl))
is_null_iff (bool b) = ((λ h. cc), (λ h. cc))
is_null_iff (number b) = ((λ h. cc), (λ h. cc))
is_null_iff (text b) = ((λ h. cc), (λ h. cc))
is_null_iff (array b) = ((λ h. cc), (λ h. cc))
is_null_iff (object b) = ((λ h. cc), (λ h. cc))

insert-ne-nil : (a : Violation) (vs : List Violation) → insert a vs ≢ []
unfolding insert
insert-ne-nil a [] = λ h. cc h
insert-ne-nil a (v ∷ vs) = elim (Bool-cases (precedes a v)) [
  | inl e ↦ rw e (λ h. cc h)
  | inr e ↦ rw e (λ h. cc h)
]

pub sort_stable_iff : (vs : List Violation) → (sort_stable vs ≡ []) ↔ (vs ≡ [])
unfolding sort_stable
sort_stable_iff [] = ((λ h. refl), (λ h. refl))
sort_stable_iff (v ∷ vs) = ((λ h. absurd (insert-ne-nil v (sort_stable vs) h)), (λ h. cc))
