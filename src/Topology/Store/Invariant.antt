-- ===== src/Topology/Store/Invariant.antt =====
-- The state that `SaveEdge` and `DeleteEdge` of flow-core/internal/topology/topology.go leave.
use thingsflow.Base.{
  [], ◌≡◌, ◌≢◌, ◌⊎◌, refl, ◌∙◌, ap, subst, inl, inr, Bool, ◌||◌, not, some, arith, Bool-cases,
  Option-cases, &&_iff,
}
use thingsflow.Base.Text.{Text, text_eq, text_eq_iff}
use thingsflow.Base.Result.{ok, err, >>=-eq-ok, guard, guard-eq-ok, Result-cases}
use thingsflow.Topology.{
  EntityRef, Edge, EdgeFilter, Catalog, Graph, TopologyError, unknown_entity, invalid_relation_type,
  invalid_metadata, directed, bidirectional, resolve_entity_tenant, normalize_filter,
  normalize_edge,
}
use thingsflow.Topology.Model.{enforce_model_relation}
use thingsflow.Topology.Store.{
  check_edge, check_fields, check_types, check_owners, materialize, is_json, owner_of, save_edge,
  write_edge, delete_edge, erase_edge, deletes,
}
use thingsflow.Topology.Store.Saved.{Tenanted, save_topology_edge-Origin}
use thingsflow.Topology.Store.Mirrored.{Mirrored, write_edge-Mirrored}
use thingsflow.Topology.Store.Paired.{Paired, save_topology_edge-Paired, delete_where-Paired}
use thingsflow.Topology.Store.Deleted.{erase_edge-Mirrored, erase_edge-Tenanted}

owner_of-eq-ok :
    (c : Catalog) (r : EntityRef) {t : Text}
    → owner_of c r ≡ ok t
    → resolve_entity_tenant c.entities r ≡ some t
unfolding owner_of
owner_of-eq-ok c r {t} h = elim (Option-cases (resolve_entity_tenant c.entities r)) [
  | inl q ↦ cc (rw (owner_of, q) at h)
  | inr (t', q) ↦ grind (arith, rw (owner_of, q) at h, q)
]

abbrev OwnEnds : Catalog → Edge → Type 0
OwnEnds c e =
    (resolve_entity_tenant c.entities e.from ≡ some e.tenant_id)
    × (resolve_entity_tenant c.entities e.to ≡ some e.tenant_id)

-- Both ends of an edge that passes are of its tenant.
check_owners-owned : (c : Catalog) (e : Edge) {u : Unit {0}} → check_owners c e ≡ ok u → OwnEnds c e
unfolding check_owners
check_owners-owned c e h =
    let (from, p, h1) = >>=-eq-ok (owner_of c e.from) _ h in
    let (to, q, h2) = >>=-eq-ok (owner_of c e.to) _ h1 in
    let (a, b) =
      (&&_iff (text_eq from e.tenant_id) (text_eq to e.tenant_id)).0 (guard-eq-ok _ _ h2) in
    (
      owner_of-eq-ok c e.from p ∙ ap some ((text_eq_iff from e.tenant_id).0 a),
      owner_of-eq-ok c e.to q ∙ ap some ((text_eq_iff to e.tenant_id).0 b),
    )

-- The checks of the fields leave the ends and the tenant.
check_fields-OwnEnds :
    (c : Catalog) (e e' : Edge) → check_fields e ≡ ok e' → OwnEnds c e' → OwnEnds c e
unfolding check_fields
check_fields-OwnEnds c e e' h owned =
    let (_, _, h1) =
      >>=-eq-ok
        (guard (not (text_eq e.relation_type [] || (text_eq e.from.id [] || text_eq e.to.id [])))
          unknown_entity)
        _ h in
    let (_, _, h2) =
      >>=-eq-ok
        (guard (text_eq e.direction directed || text_eq e.direction bidirectional)
          invalid_relation_type)
        _ h1 in
    let (_, _, h3) = >>=-eq-ok (guard (is_json (materialize e.metadata)) invalid_metadata) _ h2 in
    let same : e' ≡ (record e { metadata = materialize e.metadata }) = cc h3 in
    subst (OwnEnds c) same owned

-- What passes is within the tenant of its ends, and so was the edge that was given.
check_edge-owned :
    (c : Catalog) (raw e : Edge)
    → check_edge c raw ≡ ok e
    → OwnEnds c e × OwnEnds c (normalize_edge raw)
unfolding check_edge
check_edge-owned c raw e h =
    let (e', p, h1) = >>=-eq-ok (check_fields (normalize_edge raw)) _ h in
    let (_, _, h2) = >>=-eq-ok (check_types c e') _ h1 in
    let (_, owned, h3) = >>=-eq-ok (check_owners c e') _ h2 in
    let (_, _, h4) = >>=-eq-ok (enforce_model_relation c e') _ h3 in
    let same : e' ≡ e = cc h4 in
    let o = check_owners-owned c e' owned in
    (subst (OwnEnds c) same o, check_fields-OwnEnds c (normalize_edge raw) e' p o)

-- Every edge is within the tenant of its ends, and has its mirrors; two ends have at most one
-- bidirectional edge.
abbrev pub IsSound : Catalog → Graph → Type 0
IsSound c g = Tenanted c g × (Mirrored g × Paired g.edges)

write_edge-IsSound :
    (c : Catalog) (e : Edge) (g : Graph) → OwnEnds c e → IsSound c g → IsSound c (write_edge e g)
write_edge-IsSound c e g owned (tenanted, (mirrored, paired)) = (
  (λ r i. elim (save_topology_edge-Origin e g.edges r (unfold write_edge in i)) [
    | inl (t, f, o, _, _, _) ↦ rw (t, f, o) owned
    | inr (old, j, (t, f, o, _, _, _)) ↦ rw (t, f, o) (tenanted old j)
  ]),
  (
    write_edge-Mirrored e g mirrored,
    (unfold write_edge in save_topology_edge-Paired e g.edges paired),
  ),
)

-- A call of SaveEdge, whatever it returns, keeps every edge within the tenant of both its ends,
-- every edge mirrored in `relation`, every bidirectional edge mirrored in the reverse too, and at most
-- one bidirectional edge of a type and a group between two ends.
pub save_edge-IsSound :
    (c : Catalog) (executed : Bool) (e : Edge) (g : Graph)
    → IsSound c g
    → IsSound c (save_edge c executed e g).1
unfolding save_edge
save_edge-IsSound c executed raw g sound = elim (Result-cases (check_edge c raw)) [
  | inl (x, q) ↦ rw q sound
  | inr (e, q) ↦ rw q (elim (Bool-cases executed) [
    | inl done ↦ rw done (write_edge-IsSound c e g (check_edge-owned c raw e q).0 sound)
    | inr lost ↦ rw lost sound
  ])
]

-- SaveEdge refuses an edge of which an end has no owner or is of another tenant than the edge, and
-- leaves both tables as they were.
pub save_edge-foreign :
    (c : Catalog) (executed : Bool) (e : Edge) (g : Graph)
    → (resolve_entity_tenant c.entities (normalize_edge e).from ≢ some e.tenant_id)
      ⊎ (resolve_entity_tenant c.entities (normalize_edge e).to ≢ some e.tenant_id)
    → (x : TopologyError) × (save_edge c executed e g ≡ (err x, g))
unfolding save_edge
save_edge-foreign c executed raw g foreign = elim (Result-cases (check_edge c raw)) [
  | inl (x, q) ↦ (x, rw q refl)
  | inr (e, q) ↦
      let (from, to) = (check_edge-owned c raw e q).1 in
      absurd (elim foreign [
        | inl other ↦ other (unfold normalize_edge in from)
        | inr other ↦ other (unfold normalize_edge in to)
      ])
]

-- A call of DeleteEdge, whatever it returns, keeps every edge within the tenant of both its ends,
-- every edge mirrored in `relation`, every bidirectional edge mirrored in the reverse too, and at most
-- one bidirectional edge of a type and a group between two ends, if the filter's origin is owned by the filter's tenant.
pub delete_edge-IsSound :
    (c : Catalog) (executed : Bool) (f : EdgeFilter) (g : Graph)
    → resolve_entity_tenant c.entities (normalize_filter f).from ≡ some f.tenant_id
    → IsSound c g
    → IsSound c (delete_edge executed f g).1
unfolding delete_edge
delete_edge-IsSound c executed f g owned sound = elim (Bool-cases executed) [
  | inl done ↦ rw done (
    erase_edge-Tenanted (normalize_filter f) g c sound.0,
    (
      erase_edge-Mirrored (normalize_filter f) g c sound.0 (unfold normalize_filter in owned)
          sound.1.0,
      (unfold erase_edge in delete_where-Paired (deletes (normalize_filter f)) g.edges sound.1.1),
    ),
  )
  | inr lost ↦ rw lost sound
]
