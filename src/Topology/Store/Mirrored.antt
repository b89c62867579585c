-- ===== src/Topology/Store/Mirrored.antt =====
-- The rows of `relation` beside those of `topology_edge` in
-- flow-core/internal/topology/topology.go.
use thingsflow.Base.{List, ◌≡◌, refl, inl, inr, true, In, arith, Bool-cases}
use thingsflow.Base.Text.{Text, text_eq_iff, text_eq_refl}
use thingsflow.Topology.{EntityRef, Edge, Relation, Graph}
use thingsflow.Topology.Model.{is_bidirectional}
use thingsflow.Topology.Store.{exists_where, mirrors, save_legacy_mirror, write_edge, in_group}
use thingsflow.Topology.Store.Rows.{exists_where-upsert, exists_where-upsert_self, ref_eq_refl}
use thingsflow.Topology.Store.Saved.{SameEdge, save_topology_edge-Origin}

abbrev pub HasMirror : EntityRef → EntityRef → Edge → List Relation → Type 0
HasMirror from to e rows =
    exists_where (mirrors from to e.relation_type_group e.relation_type) rows ≡ true

-- The mirrors that an edge needs: one row, and the reverse one if it is bidirectional.
abbrev pub MirroredEdge : List Relation → Edge → Type 0
MirroredEdge rows e =
    HasMirror e.from e.to e rows × (is_bidirectional e ≡ true → HasMirror e.to e.from e rows)

abbrev pub Mirrored : Graph → Type 0
Mirrored g = (e : Edge) → In e g.edges → MirroredEdge g.relations e

HasMirror-save :
    (from to from' to' : EntityRef) (e e' : Edge) (rows : List Relation)
    → HasMirror from to e rows
    → HasMirror from to e (save_legacy_mirror from' to' e' rows)
unfolding save_legacy_mirror
HasMirror-save from to from' to' e e' rows h =
    exists_where-upsert _ _ (mirrors from to e.relation_type_group e.relation_type) _ rows
      (λ r. unfold mirrors in refl) h

HasMirror-save_self :
    (from to : EntityRef) (e : Edge) (rows : List Relation)
    → HasMirror from to e (save_legacy_mirror from to e rows)
unfolding save_legacy_mirror
HasMirror-save_self from to e rows =
    exists_where-upsert_self (mirrors from to e.relation_type_group e.relation_type) _ _ rows
      (λ r. unfold mirrors in refl)
      (unfold mirrors in
        rw
          (
            ref_eq_refl from,
            ref_eq_refl to,
            text_eq_refl e.relation_type_group,
            text_eq_refl e.relation_type,
          )
          refl)

-- The mirrors depend on the fields by which an edge is known.
MirroredEdge-same :
    (rows : List Relation) (r e : Edge) → SameEdge r e → MirroredEdge rows e → MirroredEdge rows r
unfolding is_bidirectional
MirroredEdge-same rows r e (t, f, o, y, g, d) h = rw (f, o, y, g, d) h

write_edge-MirroredEdge : (e : Edge) (g : Graph) → MirroredEdge (write_edge e g).relations e
unfolding write_edge
write_edge-MirroredEdge e g = elim (Bool-cases (is_bidirectional e)) [
  | inl both ↦ rw both (
    HasMirror-save e.from e.to e.to e.from e e _ (HasMirror-save_self e.from e.to e g.relations),
    (λ _. HasMirror-save_self e.to e.from e _),
  )
  | inr one ↦ rw one (HasMirror-save_self e.from e.to e g.relations, (λ q. cc q))
]

write_edge-keeps :
    (from to : EntityRef) (e : Edge) (o : Edge) (g : Graph)
    → HasMirror from to o g.relations
    → HasMirror from to o (write_edge e g).relations
unfolding write_edge
write_edge-keeps from to e o g h = elim (Bool-cases (is_bidirectional e)) [
  | inl both ↦
      rw both
        (HasMirror-save from to e.to e.from o e _ (HasMirror-save from to e.from e.to o e _ h))
  | inr one ↦ rw one (HasMirror-save from to e.from e.to o e _ h)
]

-- Saving an edge keeps every edge mirrored.
pub write_edge-Mirrored : (e : Edge) (g : Graph) → Mirrored g → Mirrored (write_edge e g)
write_edge-Mirrored e g h r i =
    elim (save_topology_edge-Origin e g.edges r (unfold write_edge in i)) [
      | inl same ↦ MirroredEdge-same _ r e same (write_edge-MirroredEdge e g)
      | inr (old, j, same) ↦
          let (there, back) = h old j in
          MirroredEdge-same _ r old same (
            write_edge-keeps old.from old.to e old g there,
            (λ both. write_edge-keeps old.to old.from e old g (back both)),
          )
    ]

pub in_group_iff :
    (tenant group relation_type : Text) (r : Edge)
    → in_group tenant group relation_type r ≡ true
    → (r.tenant_id ≡ tenant) × (r.relation_type_group ≡ group) × (r.relation_type ≡ relation_type)
unfolding in_group
in_group_iff tenant group relation_type r h = ground (
  arith,
  text_eq_iff r.tenant_id tenant,
  text_eq_iff r.relation_type_group group,
  text_eq_iff r.relation_type relation_type,
)
