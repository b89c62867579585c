-- ===== src/Topology/Store/Foreign.antt =====
-- What `DeleteEdge` of flow-core/internal/topology/topology.go does to the mirrors of another
-- tenant's edges.
use thingsflow.Base.{
  List, ◌≡◌, ◌≢◌, refl, inl, inr, Bool, true, false, ◌&&◌, In, Bool-cases, &&_iff,
}
use thingsflow.Base.Text.{Text}
use thingsflow.Topology.{EntityRef, Edge, EdgeFilter, Relation, Graph}
use thingsflow.Topology.Model.{is_bidirectional}
use thingsflow.Topology.Store.{
  exists_where, delete_where, mirrors, erase_edge, deletes, remove_mirror_if_unused, in_group,
  leads,
}
use thingsflow.Topology.Store.Rows.{exists_where_iff, In-delete_where}
use thingsflow.Topology.Store.Mirrored.{HasMirror, in_group_iff}

remove_mirror-shrinks :
    (tenant : Text) (a b : EntityRef) (group type : Text) (edges : List Edge) (rows : List Relation)
    (q : Relation → Bool)
    → exists_where q (remove_mirror_if_unused tenant a b group type edges rows) ≡ true
    → exists_where q rows ≡ true
unfolding remove_mirror_if_unused
remove_mirror-shrinks tenant a b group type edges rows q h =
    elim (Bool-cases (exists_where (λ r. in_group tenant group type r && leads a b r) edges)) [
      | inl u ↦ rw u at h
      | inr u ↦
          let (m, i, w) =
            (exists_where_iff q (delete_where (mirrors a b group type) rows)).0 (rw u at h) in
          (exists_where_iff q rows).1
            (m, ((In-delete_where (mirrors a b group type) rows m).0 i).0, w)
    ]

remove_mirror-gone :
    (tenant : Text) (a b : EntityRef) (group type : Text) (edges : List Edge) (rows : List Relation)
    → exists_where (λ r. in_group tenant group type r && leads a b r) edges ≡ false
    → exists_where
        (mirrors a b group type)
        (remove_mirror_if_unused tenant a b group type edges rows)
      ≡ true
    → ⊥
unfolding remove_mirror_if_unused
remove_mirror-gone tenant a b group type edges rows u h =
    let p = mirrors a b group type in
    let (m, i, w) = (exists_where_iff p (delete_where p rows)).0 (rw u at h) in
    cc (w, ((In-delete_where p rows m).0 i).1)

-- No row is left of the filter's tenant and relation that leads along the filter.
left-unused :
    (f : EdgeFilter) (g : Graph)
    → exists_where
        (λ r. in_group f.tenant_id f.relation_type_group f.relation_type r && leads f.from f.to r)
        (delete_where (deletes f) g.edges)
      ≡ false
left-unused f g =
    let along_filter : Edge → Bool =
      λ r. in_group f.tenant_id f.relation_type_group f.relation_type r && leads f.from f.to r in
    elim (Bool-cases (exists_where along_filter (delete_where (deletes f) g.edges))) [
      | inr nothing ↦ nothing
      | inl found ↦
          let (r, j, w) =
            (exists_where_iff along_filter (delete_where (deletes f) g.edges)).0 found in
          cc (deletes-along r w, ((In-delete_where (deletes f) g.edges r).0 j).1)
    ]
  where
    deletes-along :
        (r : Edge)
        → (in_group f.tenant_id f.relation_type_group f.relation_type r && leads f.from f.to r)
          ≡ true
        → deletes f r ≡ true
    deletes-along r w =
        let (k, l) =
          (&&_iff (in_group f.tenant_id f.relation_type_group f.relation_type r) _).0 w in
        unfold deletes in rw (k, l) refl

-- The row of `relation` along the filter is always deleted.
pub erase_edge-unmirrored :
    (f : EdgeFilter) (g : Graph)
    → exists_where
        (mirrors f.from f.to f.relation_type_group f.relation_type)
        (erase_edge f g).relations
      ≡ true
    → ⊥
unfolding erase_edge
erase_edge-unmirrored f g h =
    let left = delete_where (deletes f) g.edges in
    elim (Bool-cases (exists_where (λ x. deletes f x && is_bidirectional x) g.edges)) [
      | inl both ↦
          remove_mirror-gone f.tenant_id f.from f.to f.relation_type_group f.relation_type left
            g.relations (left-unused f g)
            (remove_mirror-shrinks f.tenant_id f.to f.from f.relation_type_group f.relation_type
              left _ (mirrors f.from f.to f.relation_type_group f.relation_type) (rw both at h))
      | inr one ↦
          remove_mirror-gone f.tenant_id f.from f.to f.relation_type_group f.relation_type left
            g.relations (left-unused f g) (rw one at h)
    ]

-- A tenant that deletes along another tenant's edge leaves the edge without its mirror: DeleteEdge
-- keeps the edge of the other tenant, and deletes its row of `relation`.
pub erase_edge-foreign :
    (f : EdgeFilter) (g : Graph) (e : Edge)
    → In e g.edges
    → e.tenant_id ≢ f.tenant_id
    → e.from ≡ f.from
    → e.to ≡ f.to
    → e.relation_type_group ≡ f.relation_type_group
    → e.relation_type ≡ f.relation_type
    → In e (erase_edge f g).edges × (¬ HasMirror e.from e.to e (erase_edge f g).relations)
erase_edge-foreign f g e i foreign from to group type = (
  unfold erase_edge in (In-delete_where (deletes f) g.edges e).1 (i, not_deleted),
  (λ h. erase_edge-unmirrored f g (rw (from, to, group, type) at h)),
)
  where
    not_deleted : deletes f e ≡ false
    not_deleted = elim (Bool-cases (in_group f.tenant_id f.relation_type_group f.relation_type e)) [
      | inl grouped ↦
          absurd
            (foreign (in_group_iff f.tenant_id f.relation_type_group f.relation_type e grouped).0)
      | inr other ↦ unfold deletes in rw other refl
    ]
