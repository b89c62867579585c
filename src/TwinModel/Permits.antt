-- ===== src/TwinModel/Permits.antt =====
-- Which attributes a pinned schema permits in flow-core/internal/twinmodel/enforce.go.
use thingsflow.Base.{
  List, [], ◌∷◌, ◌≡◌, ◌↔◌, ◌⊎◌, refl, sym, ap, ◌∙◌, inl, inr, Bool, true, false, ◌&&◌, Option, none,
  some, arith, Bool-cases,
}
use thingsflow.Base.Text.{Text, codes, text_eq, text_eq_iff}
use thingsflow.Base.Json.{Fields, object}
use thingsflow.TwinModel.{DerivedSchema, Violation}
use thingsflow.TwinModel.Validate.{validate}
use thingsflow.TwinModel.Enforcement.{
  Stored, decoded, undecodable, effective_mode, conclude, check_mode, check_schema, is_accepted,
}
use thingsflow.TwinModel.Conforms.{Conforms}
use thingsflow.TwinModel.Conforms.Maps.{validate_iff}

module _ (matches : Text → Text → Bool) where
  -- The schema's identity is the pin's, its mode is a known one, and the attributes conform to it,
  -- as partial values, if the mode is to reject.
  abbrev pub Permits : Text → Fields → Text → Text → DerivedSchema → Type 0
  Permits kind values model_id version schema =
      (schema.model_id ≡ model_id)
      × (schema.version ≡ version)
      × (schema.kind ≡ kind)
      × ((effective_mode schema ≡ codes "warn")
          ⊎ ((effective_mode schema ≡ codes "reject")
              × Conforms matches schema ((codes "attributes", object values) ∷ []) false))

  conclude-reject :
      (vs : List Violation) → (is_accepted (conclude (codes "reject") vs) ≡ true) ↔ (vs ≡ [])
  unfolding conclude is_accepted text_eq
  conclude-reject [] = ((λ h. refl), (λ h. refl))
  conclude-reject (v ∷ vs) = ((λ h. cc), (λ h. cc))

  conclude-warn : (vs : List Violation) → is_accepted (conclude (codes "warn") vs) ≡ true
  unfolding conclude is_accepted text_eq
  conclude-warn [] = refl
  conclude-warn (v ∷ vs) = refl

  check_mode_iff :
      (schema : DerivedSchema) (values : Fields) (mode : Text)
      → (is_accepted (check_mode matches schema values mode) ≡ true) ↔ (
          (mode ≡ codes "warn")
          ⊎ ((mode ≡ codes "reject")
              × Conforms matches schema ((codes "attributes", object values) ∷ []) false))
  unfolding check_mode is_accepted
  check_mode_iff schema values mode =
      let valid = validate_iff matches schema [] ((codes "attributes", object values) ∷ []) false in
      let vs = validate matches schema [] ((codes "attributes", object values) ∷ []) false in
      elim (Bool-cases (text_eq mode (codes "warn"))) [
        | inl w ↦
            let is_warn = (text_eq_iff mode (codes "warn")).0 w in
            ((λ h. inl is_warn), (λ h. rw w (rw is_warn (conclude-warn vs))))
        | inr w ↦ elim (Bool-cases (text_eq mode (codes "reject"))) [
          | inl r ↦
              let is_reject = (text_eq_iff mode (codes "reject")).0 r in
              (
                (λ h. inr (
                  is_reject,
                  valid.0 ((conclude-reject vs).0 (rw is_reject at (rw (w, r) at h))),
                )),
                (λ h. elim h [
                  | inl q ↦ cc (w, (text_eq_iff mode (codes "warn")).1 q)
                  | inr (q, c) ↦ rw (w, r) (rw is_reject ((conclude-reject vs).1 (valid.1 c)))
                ]),
              )
          | inr r ↦ (
            (λ h. cc (rw (w, r) at h)),
            (λ h. elim h [
              | inl q ↦ cc (w, (text_eq_iff mode (codes "warn")).1 q)
              | inr (q, c) ↦ cc (r, (text_eq_iff mode (codes "reject")).1 q)
            ]),
          )
        ]
      ]

  pub check_schema_iff :
      (kind : Text) (values : Fields) (id version : Text) (o : Option Stored)
      → (is_accepted (check_schema matches kind values id version o) ≡ true) ↔ (
          (schema : DerivedSchema) × (o ≡ some (decoded schema))
          × Permits kind values id version schema)
  unfolding check_schema is_accepted
  check_schema_iff kind values id version none = ((λ h. cc), (λ h. cc (h.1)))
  check_schema_iff kind values id version (some undecodable) = ((λ h. cc), (λ h. cc (h.1)))
  check_schema_iff kind values id version (some (decoded s)) =
      let moded = check_mode_iff s values (effective_mode s) in
      let same = and3_iff s.model_id id s.version version s.kind kind in
      elim (Bool-cases
        (text_eq s.model_id id && (text_eq s.version version && text_eq s.kind kind))) [
          | inl e ↦ (
            (λ h. let (a, b, c) = same.0 e in (s, refl, (a, b, c, moded.0 (rw e at h)))),
            (λ h.
                let (d, q, (a, b, c, m)) = h in
                let is_same : d ≡ s = cc q in rw e (moded.1 (rw is_same at m))),
          )
          | inr e ↦ (
            (λ h. cc (rw e at h)),
            (λ h.
                let (d, q, (a, b, c, m)) = h in
                let is_same : d ≡ s = cc q in
                cc (
                  e,
                  same.1 (
                    sym (ap (λ x. x.model_id) is_same) ∙ a,
                    sym (ap (λ x. x.version) is_same) ∙ b,
                    sym (ap (λ x. x.kind) is_same) ∙ c,
                  ),
                )),
          )
        ]
    where
      and3_iff :
          (a b c d e f : Text)
          → ((text_eq a b && (text_eq c d && text_eq e f)) ≡ true) ↔ ((a ≡ b) × (c ≡ d) × (e ≡ f))
      and3_iff a b c d e f = ground (arith, text_eq_iff a b, text_eq_iff c d, text_eq_iff e f)
