-- ===== src/TwinModel/Pinned.antt =====
-- Which writes of attributes flow-core/internal/twinmodel/enforce.go accepts.
use thingsflow.Base.{
  ◌≡◌, ◌≢◌, ◌↔◌, ◌⊎◌, refl, subst, inl, inr, Bool, true, false, not, ◌&&◌, ◌||◌, Option, none, some,
  arith, Bool-cases,
}
use thingsflow.Base.Text.{Text, codes, text_eq, text_eq_iff, to_upper, trim_space}
use thingsflow.Base.Json.{Fields}
use thingsflow.TwinModel.{DerivedSchema}
use thingsflow.TwinModel.Enforcement.{
  Models, Registration, decoded, find_registration, find_model, is_blank, check_pin,
  check_registration, validate_attributes, is_accepted,
}
use thingsflow.TwinModel.Permits.{Permits, check_schema_iff}

module _ (matches : Text → Text → Bool) where
  -- There is no pin, or it is whole and names a stored schema that permits the values.
  abbrev pub PinPermits : Models → Text → Fields → Text → Option Text → Option Text → Type 0
  PinPermits db kind values tenant id version =
      ((id ≡ none) × (version ≡ none))
      ⊎ ((i v : Text) × (schema : DerivedSchema) × (id ≡ some i)
          × (version ≡ some v)
          × (is_blank i ≡ false)
          × (is_blank v ≡ false)
          × (find_model tenant i v db.models ≡ some (decoded schema))
          × Permits matches kind values i v schema)

  check_pin_iff :
      (db : Models) (kind : Text) (values : Fields) (tenant : Text) (id version : Option Text)
      → (is_accepted (check_pin matches db kind values tenant id version) ≡ true)
        ↔ PinPermits db kind values tenant id version
  unfolding check_pin is_accepted
  check_pin_iff db kind values tenant none none = ((λ h. inl (refl, refl)), (λ h. refl))
  check_pin_iff db kind values tenant none (some v) =
      ((λ h. cc), (λ h. elim h [ inl (a, b) ↦ cc b | inr (i, w, s, q, r, b1, b2, f, p) ↦ cc q ]))
  check_pin_iff db kind values tenant (some i) none =
      ((λ h. cc), (λ h. elim h [ inl (a, b) ↦ cc a | inr (j, w, s, q, r, b1, b2, f, p) ↦ cc r ]))
  check_pin_iff db kind values tenant (some i) (some v) =
      let schema = check_schema_iff matches kind values i v (find_model tenant i v db.models) in
      elim (Bool-cases (is_blank i || is_blank v)) [
        | inl e ↦ (
          (λ h. cc (rw e at h)),
          (λ h. elim h [
            | inl (a, b) ↦ cc a
            | inr (j, w, s, q, r, b1, b2, f, p) ↦
                let same_i : j ≡ i = cc q in
                let same_v : w ≡ v = cc r in
                absurd (not_blank (rw same_i at b1) (rw same_v at b2) e)
          ]),
        )
        | inr e ↦ (
          (λ h.
              let (s, f, p) = schema.0 (rw e at h) in
              let (b1, b2) = blanks e in inr (i, v, s, refl, refl, b1, b2, f, p)),
          (λ h. elim h [
            | inl (a, b) ↦ cc a
            | inr (j, w, s, q, r, b1, b2, f, p) ↦
                let same_i : j ≡ i = cc q in
                let same_v : w ≡ v = cc r in
                rw e (schema.1 (s, rw (same_i, same_v) at f, rw (same_i, same_v) at p))
          ]),
        )
      ]
    where
      not_blank : {a b : Bool} → a ≡ false → b ≡ false → (a || b) ≢ true
      not_blank p q = λ e. cc (rw (p, q) at e)

      blanks : {a b : Bool} → (a || b) ≡ false → (a ≡ false) × (b ≡ false)
      blanks {a = a} {b = b} e = ground arith

  check_registration_iff :
      (db : Models) (kind : Text) (values : Fields) (o : Option Registration)
      → (is_accepted (check_registration matches db kind values o) ≡ true) ↔ (
          (o ≡ none)
          ⊎ ((r : Registration) × (o ≡ some r)
              × PinPermits db kind values r.tenant_id r.model_id r.model_version))
  unfolding check_registration is_accepted
  check_registration_iff db kind values none = ((λ h. inl refl), (λ h. refl))
  check_registration_iff db kind values (some r) =
      let pin = check_pin_iff db kind values r.tenant_id r.model_id r.model_version in
      (
        (λ h. inr (r, refl, pin.0 h)),
        (λ h. elim h [
          | inl e ↦ cc e
          | inr (q, e, p) ↦
              let same : q ≡ r = cc e in
              pin.1 (
                subst (λ x. PinPermits db kind values x.tenant_id x.model_id x.model_version) same
                  p)
        ]),
      )

  -- A write of attributes is accepted, with or without a warning, exactly if the entity's kind is
  -- DEVICE or ASSET, the database answers, and the entity is not registered or has no pin, or its
  -- pin is whole and names a stored schema with the identity of the pin, a known mode and, if that
  -- is to reject, no violation: a broken pin never switches the check off.
  pub validate_attributes_iff :
      (db : Models) (tenant entity_type entity_id : Text) (values : Fields)
      → (is_accepted (validate_attributes matches db tenant entity_type entity_id values) ≡ true)
        ↔ (((to_upper (trim_space entity_type) ≡ codes "DEVICE")
              ⊎ (to_upper (trim_space entity_type) ≡ codes "ASSET"))
            × (db.ready ≡ true)
            × (db.answered ≡ true)
            × ((find_registration tenant (to_upper (trim_space entity_type)) entity_id db.registry
                  ≡ none)
                ⊎ ((r : Registration) × (find_registration tenant
                        (to_upper (trim_space entity_type))
                        entity_id
                        db.registry
                      ≡ some r)
                    × PinPermits db
                        (to_upper (trim_space entity_type))
                        values
                        r.tenant_id
                        r.model_id
                        r.model_version)))
  unfolding validate_attributes is_accepted
  validate_attributes_iff db tenant entity_type entity_id values =
      let kind = to_upper (trim_space entity_type) in
      let registered =
        check_registration_iff db kind values
          (find_registration tenant kind entity_id db.registry) in
      let device = text_eq_iff kind (codes "DEVICE") in
      let asset = text_eq_iff kind (codes "ASSET") in
      elim (Bool-cases
        (not (text_eq kind (codes "DEVICE")) && not (text_eq kind (codes "ASSET")))) [
          | inl e ↦ (
            (λ h. cc (rw e at h)),
            (λ h. elim h.0 [
              | inl d ↦ absurd (is_neither (inl (device.1 d)) e)
              | inr a ↦ absurd (is_neither (inr (asset.1 a)) e)
            ]),
          )
          | inr e ↦ elim (Bool-cases db.ready) [
            | inr n ↦ ((λ h. cc (rw (e, n) at h)), (λ h. cc (n, h.1)))
            | inl n ↦ elim (Bool-cases db.answered) [
              | inr a ↦ ((λ h. cc (rw (e, n, a) at h)), (λ h. cc (a, h.2)))
              | inl a ↦ (
                (λ h. (
                  elim (is_either e) [ inl d ↦ inl (device.0 d) | inr q ↦ inr (asset.0 q) ],
                  n,
                  a,
                  registered.0 (rw (e, n, a) at h),
                )),
                (λ h. rw (e, n, a) (registered.1 h.3)),
              )
            ]
          ]
        ]
    where
      is_neither : {a b : Bool} → (a ≡ true) ⊎ (b ≡ true) → (not a && not b) ≢ true
      is_neither {a = a} {b = b} h = λ e. ground arith

      is_either : {a b : Bool} → (not a && not b) ≡ false → (a ≡ true) ⊎ (b ≡ true)
      is_either {a = a} {b = b} e = ground arith
