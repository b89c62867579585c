-- ===== src/TwinModel/Conforms/Maps.antt =====
-- Whole maps: the validation of flow-core/internal/twinmodel/validate.go reports nothing exactly if
-- the values conform.
use thingsflow.Base.{
  List, [], ◌∷◌, ◌++◌, ◌≡◌, ◌≢◌, ◌↔◌, refl, sym, subst, ◌∙◌, inl, inr, Bool, false, ◌&&◌, Option,
  none, some, All, arith, Bool-cases, if◌then◌else◌,
}
use thingsflow.Base.Text.{Text, codes, text_eq, text_eq_iff}
use thingsflow.Base.Dict.{Dict, get}
use thingsflow.Base.Json.{Json, null}
use thingsflow.TwinModel.{PropertySpec, FeatureSchema, DerivedSchema, missing}
use thingsflow.TwinModel.Value.{pointer}
use thingsflow.TwinModel.Validate.{
  sorted_keys, unknown_violations, is_null, as_map, property_violations, spec_violations,
  validate_property_map, feature_violations, features_violations, validate,
}
use thingsflow.TwinModel.Conforms.{Fits, Accepts, MapConforms, Conforms}
use thingsflow.TwinModel.Conforms.Entries.{
  All-sorted_keys, unknown_check_iff, is_null_iff, sort_stable_iff,
}
use thingsflow.TwinModel.Conforms.Single.{append_nil_iff, flag_iff, validate_value_iff}

module _ (matches : Text → Text → Bool) where
  property_violations_iff :
      (path key : Text) (complete : Bool) (spec : PropertySpec) (o : Option Json)
      → (property_violations matches path key complete (some spec) o ≡ [])
        ↔ Accepts matches spec complete o
  unfolding property_violations
  property_violations_iff path key complete spec none =
      let f =
        flag_iff (complete && spec.required) (pointer path (key ∷ [])) (codes "required") missing
          null in
      (
        (λ h. ((λ v e. cc e), (λ e c. ground (arith, f.0 h)))),
        (λ h. f.1 (ground (arith, h.1 refl))),
      )
  property_violations_iff path key complete spec (some v) =
      let fits = validate_value_iff matches spec (pointer path (key ∷ [])) v in
      elim (Bool-cases (is_null v)) [
        | inl e ↦ (
          (λ h. (
            (λ w q. let same : v ≡ w = cc q in inl (sym same ∙ (is_null_iff v).0 e)),
            (λ q. cc q),
          )),
          (λ h. rw e refl),
        )
        | inr e ↦ (
          (λ h. (
            (λ w q.
                let same : v ≡ w = cc q in
                inr (subst (λ x. Fits matches spec x) same (fits.0 (rw e at h)))),
            (λ q. cc q),
          )),
          (λ h. elim (h.0 v refl) [
            | inl z ↦ cc (e, (is_null_iff v).1 z)
            | inr z ↦ rw e (fits.1 z)
          ]),
        )
      ]

  spec_violations_iff :
      (schema : Dict PropertySpec) (values : Dict Json) (path : Text) (complete : Bool)
      (ks : List Text)
      → (spec_violations matches schema values path complete ks ≡ [])
        ↔ All
            (λ k. property_violations matches path k complete (get schema k) (get values k) ≡ [])
            ks
  unfolding spec_violations
  spec_violations_iff schema values path complete [] = ((λ h. tt), (λ h. refl))
  spec_violations_iff schema values path complete (k ∷ ks) =
      let ih = spec_violations_iff schema values path complete ks in
      let both =
        append_nil_iff (property_violations matches path k complete (get schema k) (get values k))
          (spec_violations matches schema values path complete ks) in
      ((λ h. ((both.0 h).0, ih.0 (both.0 h).1)), (λ h. both.1 (h.0, ih.1 h.1)))

  pub validate_property_map_iff :
      (schema : Dict PropertySpec) (values : Dict Json) (path : Text) (complete reject : Bool)
      → (validate_property_map matches schema values path complete reject ≡ [])
        ↔ MapConforms matches schema values complete reject
  unfolding validate_property_map
  validate_property_map_iff schema values path complete reject =
      let unknown = unknown_check_iff schema values path reject in
      let specs = spec_violations_iff schema values path complete (sorted_keys schema) in
      let all =
        All-sorted_keys schema
          (λ k. property_violations matches path k complete (get schema k) (get values k) ≡ []) in
      let one = λ (k : Text) (spec : PropertySpec).
        property_violations_iff path k complete spec (get values k) in
      let both =
        append_nil_iff
          (if reject then unknown_violations schema values path (sorted_keys values) else [])
          (spec_violations matches schema values path complete (sorted_keys schema)) in
      (
        (λ h.
            let (u, s) = both.0 h in
            ((λ k spec e. (one k spec).0 (rw e at (all.0 (specs.0 s) k spec e))), unknown.0 u)),
        (λ h.
            both.1
              (unknown.1 h.1, specs.1 (all.1 (λ k spec e. rw e ((one k spec).1 (h.0 k spec e)))))),
      )

  feature_violations_iff :
      (schema : DerivedSchema) (base : Text) (features : Dict Json) (complete : Bool) (name : Text)
      (feature : FeatureSchema)
      → (feature_violations matches schema base features complete name (some feature) ≡ []) ↔ (
          name ≢ codes "telemetry"
          → (MapConforms matches feature.properties
                (as_map (get (as_map (get features name)) (codes "properties")))
                complete
                (text_eq schema.unknown_keys (codes "reject"))
              × MapConforms matches feature.desired_properties
                  (as_map (get (as_map (get features name)) (codes "desiredProperties")))
                  complete
                  (text_eq schema.unknown_keys (codes "reject"))))
  unfolding feature_violations
  feature_violations_iff schema base features complete name feature =
      let reject = text_eq schema.unknown_keys (codes "reject") in
      let reported = as_map (get (as_map (get features name)) (codes "properties")) in
      let desired = as_map (get (as_map (get features name)) (codes "desiredProperties")) in
      let p = pointer base (codes "features" ∷ name ∷ codes "properties" ∷ []) in
      let q = pointer base (codes "features" ∷ name ∷ codes "desiredProperties" ∷ []) in
      let first = validate_property_map_iff feature.properties reported p complete reject in
      let second = validate_property_map_iff feature.desired_properties desired q complete reject in
      let both =
        append_nil_iff (validate_property_map matches feature.properties reported p complete reject)
          (validate_property_map matches feature.desired_properties desired q complete reject) in
      elim (Bool-cases (text_eq name (codes "telemetry"))) [
        | inl e ↦
            ((λ h n. absurd (n ((text_eq_iff name (codes "telemetry")).0 e))), (λ h. rw e refl))
        | inr e ↦ (
          (λ h n. let (a, b) = both.0 (rw e at h) in (first.0 a, second.0 b)),
          (λ h.
              let (a, b) = h (λ s. cc (e, (text_eq_iff name (codes "telemetry")).1 s)) in
              rw e (both.1 (first.1 a, second.1 b))),
        )
      ]

  features_violations_iff :
      (schema : DerivedSchema) (base : Text) (features : Dict Json) (complete : Bool)
      (names : List Text)
      → (features_violations matches schema base features complete names ≡ [])
        ↔ All
            (λ n.
              feature_violations matches schema base features complete n (get schema.features n)
              ≡ [])
            names
  unfolding features_violations
  features_violations_iff schema base features complete [] = ((λ h. tt), (λ h. refl))
  features_violations_iff schema base features complete (n ∷ names) =
      let ih = features_violations_iff schema base features complete names in
      let both =
        append_nil_iff
          (feature_violations matches schema base features complete n (get schema.features n))
          (features_violations matches schema base features complete names) in
      ((λ h. ((both.0 h).0, ih.0 (both.0 h).1)), (λ h. both.1 (h.0, ih.1 h.1)))

  -- The validation reports nothing exactly if the values conform to the schema: the attributes and,
  -- for every modelled feature but the telemetry, the reported and the desired properties. A value
  -- that is there is null or satisfies every constraint of its property; one that is missing is not
  -- required, if complete values are asked for; and no key of a feature is undeclared, if the schema
  -- rejects unknown keys.
  pub validate_iff :
      (schema : DerivedSchema) (base : Text) (values : Dict Json) (complete : Bool)
      → (validate matches schema base values complete ≡ [])
        ↔ Conforms matches schema values complete
  unfolding validate
  validate_iff schema base values complete =
      let attributes = as_map (get values (codes "attributes")) in
      let features = as_map (get values (codes "features")) in
      let path = pointer base (codes "attributes" ∷ []) in
      let first = validate_property_map_iff schema.attributes attributes path complete false in
      let second =
        features_violations_iff schema base features complete (sorted_keys schema.features) in
      let both =
        append_nil_iff
          (validate_property_map matches schema.attributes attributes path complete false)
          (features_violations matches schema base features complete
            (sorted_keys schema.features)) in
      let all = All-sorted_keys schema.features (λ n.
        feature_violations matches schema base features complete n (get schema.features n) ≡ []) in
      let one = λ (n : Text) (f : FeatureSchema).
        feature_violations_iff schema base features complete n f in
      let sorted = sort_stable_iff (
        validate_property_map matches schema.attributes attributes path complete false
        ++ features_violations matches schema base features complete
            (sorted_keys schema.features)) in
      (
        (λ h.
            let (a, b) = both.0 (sorted.0 h) in
            (first.0 a, (λ n f e. (one n f).0 (rw e at (all.0 (second.0 b) n f e))))),
        (λ h.
            sorted.1
              (both.1 (first.1 h.0, second.1 (all.1 (λ n f e. rw e ((one n f).1 (h.1 n f e))))))),
      )
