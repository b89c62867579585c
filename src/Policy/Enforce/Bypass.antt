-- ===== src/Policy/Enforce/Bypass.antt =====
-- Where the check of policy/middleware.go and the handler of flow-core/internal/twin read a request
-- in different ways, and the write passes by the policy.
use thingsflow.Base.{◌≡◌, refl, true, false, none, some, [], ◌∷◌, inl, inr}
use thingsflow.Base.Text.{Text, codes, text_eq, to_upper, trim_space}
use thingsflow.Base.Result.{ok}
use thingsflow.Base.Json.{Json, object, field, end, entries}
use thingsflow.Policy.Path.{resource_path}
use thingsflow.Policy.Authorize.{DerivedPolicy, Claims, subject_for_claims, authorize}
use thingsflow.Policy.Store.{resolve}
use thingsflow.Policy.Enforce.{
  Service, resolved, proceed, Body, value, last_member, as_map, member_paths, write_paths,
  route_key, enforce_write,
}
use thingsflow.Policy.Enforce.Handler.{
  Twins, Entity, folds_to, decode_member, decode_field, decode_body, persisted, find_entity,
  load_entity, handled_entity, policy_context, context_of,
}
use thingsflow.Policy.Enforce.Requests.{enforce_iff}

-- A body whose only key folds to the route's, in another spelling, is checked against the entity's
-- own path alone: with a policy that authorizes the subject for WRITE there the write goes on, and
-- the handler persists the name, whatever the policy says of the path of that name.
pub enforce_write-other_spelling :
    (s : Service) (claims : Claims) (tenant policy_id entity_type id url_path key name : Text)
    (v : Json) (doc : DerivedPolicy)
    → s.ready ≡ true
    → resolve tenant policy_id s.answered s.catalog ≡ ok doc
    → authorize
        (subject_for_claims claims)
        doc
        (resource_path tenant entity_type id [])
        (codes "WRITE")
      ≡ true
    → text_eq key (route_key url_path) ≡ false
    → folds_to key (route_key url_path) ≡ true
    → (enforce_write s
          (some claims)
          (resolved tenant policy_id)
          entity_type
          id
          url_path
          (value (object (field key (object (field name v end)) end)))
        ≡ proceed)
      × (persisted (route_key url_path) (value (object (field key (object (field name v end)) end)))
          ≡ some ((name, v) ∷ []))
unfolding enforce_write write_paths as_map last_member persisted decode_body decode_field
    decode_member entries
enforce_write-other_spelling s claims tenant policy_id entity_type id url_path key name v doc ready
      known base other folds =
    (
      (enforce_iff s claims (resolved tenant policy_id) (codes "WRITE") (
            write_paths entity_type id (route_key url_path)
              (value (object (field key (object (field name v end)) end))))).0.1
          (inr (
            inr (
              ready,
              inr (
                tenant,
                policy_id,
                refl,
                (
                  doc,
                  resource_path tenant entity_type id [] ∷ [],
                  known,
                  rw (other, member_paths) refl,
                  (base, tt),
                ),
              ),
            ))),
      rw (persisted, decode_body, entries, decode_field, folds, decode_member) refl,
    )

-- The type `asset` in another spelling than `ASSET`, such as a lower-case one, is checked as a
-- device: if no device has the id, the entity counts as missing and a write of any body goes on
-- unchecked, while the handler, which normalizes the type, finds the asset.
pub enforce_write-other_type :
    (s : Service) (claims : Claims) (t : Twins) (entity_type id url_path : Text) (body : Body)
    (e : Entity)
    → s.ready ≡ true
    → t.entity_answered ≡ true
    → text_eq entity_type (codes "ASSET") ≡ false
    → to_upper (trim_space entity_type) ≡ codes "ASSET"
    → find_entity id t.devices ≡ none
    → find_entity id t.assets ≡ some e
    → (enforce_write s (some claims) (policy_context t entity_type id) entity_type id url_path body
        ≡ proceed)
      × (handled_entity t entity_type id ≡ some e)
unfolding enforce_write policy_context load_entity context_of handled_entity
enforce_write-other_type s claims t entity_type id url_path body e ready answered other same absent
      present =
    (
      (enforce_iff s claims (policy_context t entity_type id) (codes "WRITE")
            (write_paths entity_type id (route_key url_path) body)).0.1
          (inr (inr (ready, inl (rw (answered, other, absent) refl)))),
      rw (same, text_eq) present,
    )
