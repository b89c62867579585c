-- ===== src/Policy/Enforce/Bodies.antt =====
-- Which names of a body the check of policy/middleware.go covers, against what the handler of
-- twin/write.go persists.
use thingsflow.Base.{◌≡◌, map, true, ◌⊎◌, All, In, ◌++◌}
use thingsflow.Base.Text.{Text, codes, text_eq_refl, to_upper}
use thingsflow.Base.Dict.{Dict, keys}
use thingsflow.Base.Json.{Json}
use thingsflow.Policy.Enforce.Handler.{Twins, folds_to, fold_code, Entity, Pin}

-- Every key that folds to the name of the field is spelled as it.
abbrev pub Spelled : Text → Dict Json → Type 0
Spelled field d = All (λ k. folds_to k field ≡ true → k ≡ field) (keys d)

folds_to_refl : (a : Text) → folds_to a a ≡ true
unfolding folds_to
folds_to_refl a = text_eq_refl (map fold_code a)

-- The row of the registry is the entity's.
abbrev pub Pins : Pin → Text → Entity → Type 0
Pins p entity_type e =
    (p.tenant_id ≡ e.tenant_id) × (p.entity_type ≡ to_upper entity_type) × (p.entity_id ≡ e.id)

-- The reference that an entity has: that of its row in the registry, or, if it has none, the
-- default policy of its tenant.
abbrev pub Referenced : Twins → Text → Entity → Text → Type 0
Referenced t entity_type e policy_id =
    ((p : Pin) × In p t.registry × Pins p entity_type e × (policy_id ≡ p.policy_id))
    ⊎ (((p : Pin) → In p t.registry → ¬ Pins p entity_type e)
        × (policy_id ≡ codes "tenant:" ++ (e.tenant_id ++ codes ":default")))
