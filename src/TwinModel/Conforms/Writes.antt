-- ===== src/TwinModel/Conforms/Writes.antt =====
-- A partial write into values that are complete.
use thingsflow.Base.{
  [], ◌∷◌, ◌≡◌, refl, sym, subst, ◌∙◌, inl, inr, Bool, true, false, Option, none, some, Bool-cases,
  Option-cases,
}
use thingsflow.Base.Text.{Text, text_eq}
use thingsflow.Base.Dict.{Dict, get, put, get-put}
use thingsflow.Base.Json.{Json}
use thingsflow.TwinModel.{PropertySpec}
use thingsflow.TwinModel.Validate.{validate_property_map}
use thingsflow.TwinModel.Conforms.{Accepts}
use thingsflow.TwinModel.Conforms.Maps.{validate_property_map_iff}

-- The values after a write.
abbrev pub written : Dict Json → Dict Json → Dict Json
written values [] = values
written values ((k, v) ∷ rest) = put (written values rest) k v

-- An entry of the result is the write's or the old one.
get-written :
    (values changes : Dict Json) (k : Text)
    → get (written values changes) k
      ≡ elim (get changes k) [ none ↦ get values k | some v ↦ some v ]
unfolding get
get-written values [] k = refl
get-written values ((j, v) ∷ changes) k = elim (Bool-cases (text_eq j k)) [
  | inl e ↦ get-put (written values changes) j k v ∙ rw e refl
  | inr e ↦ get-put (written values changes) j k v ∙ rw e (get-written values changes k)
]

module _ (matches : Text → Text → Bool) where
  -- The validation of a partial write is enough: if nothing is reported of complete values, nor of
  -- a partial write to them, nothing is reported of the values after the write, as complete ones.
  pub validate-written :
      (schema : Dict PropertySpec) (values changes : Dict Json) (path path' path'' : Text)
      (reject : Bool)
      → validate_property_map matches schema values path true reject ≡ []
      → validate_property_map matches schema changes path' false reject ≡ []
      → validate_property_map matches schema (written values changes) path'' true reject ≡ []
  validate-written schema values changes path path' path'' reject h w =
      let old = (validate_property_map_iff matches schema values path true reject).0 h in
      let new = (validate_property_map_iff matches schema changes path' false reject).0 w in
      (validate_property_map_iff matches schema (written values changes) path'' true reject).1 (
        (λ k spec e.
            subst (λ o. Accepts matches spec true o) (sym (get-written values changes k))
              (accepted spec (get changes k) (get values k) (old.0 k spec e) (new.0 k spec e))),
        (λ on k v e. elim (Option-cases (get changes k)) [
          | inl absent ↦ old.1 on k v (sym (get-written values changes k ∙ rw absent refl) ∙ e)
          | inr (c, present) ↦ new.1 on k c present
        ]),
      )
    where
      accepted :
          (spec : PropertySpec) (c o : Option Json)
          → Accepts matches spec true o
          → Accepts matches spec false c
          → Accepts matches spec true (elim c [ none ↦ o | some v ↦ some v ])
      accepted spec none o a b = a
      accepted spec (some v) o a b = (b.0, (λ e. cc e))
