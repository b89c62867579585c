-- ===== src/Topology/Store/Saved.antt =====
-- What `SaveEdge` of flow-core/internal/topology/topology.go leaves in `topology_edge`.
use thingsflow.Base.{List, ◌≡◌, ◌⊎◌, refl, inl, inr, Option, none, some, In, Bool-cases}
use thingsflow.Topology.{Edge, Catalog, Graph, resolve_entity_tenant}
use thingsflow.Topology.Model.{is_bidirectional}
use thingsflow.Topology.Store.{
  find_where, same_key, same_pair, touch_edge, insert_edge, update_pair, save_topology_edge,
}
use thingsflow.Topology.Store.Rows.{In-upsert, In-update_where}

-- The fields by which an edge is known.
abbrev pub SameEdge : Edge → Edge → Type 0
SameEdge r e =
    (r.tenant_id ≡ e.tenant_id)
    × (r.from ≡ e.from)
    × (r.to ≡ e.to)
    × (r.relation_type ≡ e.relation_type)
    × (r.relation_type_group ≡ e.relation_type_group)
    × (r.direction ≡ e.direction)

SameEdge-refl : (e : Edge) → SameEdge e e
SameEdge-refl e = (refl, refl, refl, refl, refl, refl)

-- A row is the saved edge, or was there, but for its metadata and its version.
abbrev Origin : Edge → List Edge → Edge → Type 0
Origin e rows r = SameEdge r e ⊎ ((old : Edge) × In old rows × SameEdge r old)

insert_edge-Origin :
    (e : Edge) (rows : List Edge) (r : Edge) → In r (insert_edge e rows) → Origin e rows r
unfolding insert_edge
insert_edge-Origin e rows r h =
    elim (In-upsert (same_key e) (touch_edge e) (record e { version = 1 }) rows r h) [
      | inl new ↦ inl (rw new (SameEdge-refl e))
      | inr (inl i) ↦ inr (r, i, SameEdge-refl r)
      | inr (inr (old, i, q)) ↦ inr (old, i, rw (q, touch_edge) (SameEdge-refl old))
    ]

pub save_topology_edge-Origin :
    (e : Edge) (rows : List Edge) (r : Edge) → In r (save_topology_edge e rows) → Origin e rows r
unfolding save_topology_edge
save_topology_edge-Origin e rows r h = elim (Bool-cases (is_bidirectional e)) [
  | inl both ↦ pair (find_where (same_pair e) rows) (rw both at h)
  | inr one ↦ insert_edge-Origin e rows r (rw one at h)
]
  where
    pair : (o : Option Edge) → In r (update_pair e rows o) → Origin e rows r
    pair none i = insert_edge-Origin e rows r i
    pair (some found) i = elim (In-update_where (same_key found) (touch_edge e) rows r i) [
      | inl j ↦ inr (r, j, SameEdge-refl r)
      | inr (old, j, q) ↦ inr (old, j, rw (q, touch_edge) (SameEdge-refl old))
    ]

-- Every edge is within the tenant of both its ends.
abbrev pub Tenanted : Catalog → Graph → Type 0
Tenanted c g =
    (r : Edge)
    → In r g.edges
    → (resolve_entity_tenant c.entities r.from ≡ some r.tenant_id)
      × (resolve_entity_tenant c.entities r.to ≡ some r.tenant_id)
