-- ===== src/Topology/Store/Deleted.antt =====
-- What `DeleteEdge` of flow-core/internal/topology/topology.go leaves of the mirrors.
use thingsflow.Base.{
  List, ◌≡◌, ◌↔◌, ◌⊎◌, refl, sym, ◌∙◌, ap, inl, inr, true, false, ◌&&◌, some, In, Bool-cases,
  &&_iff,
}
use thingsflow.Base.Text.{Text, text_eq, text_eq_iff, text_eq_refl}
use thingsflow.Topology.{
  EntityRef, Edge, EdgeFilter, Relation, Catalog, Graph, ref_eq, resolve_entity_tenant,
}
use thingsflow.Topology.Model.{is_bidirectional}
use thingsflow.Topology.Store.{
  exists_where, delete_where, mirrors, erase_edge, deletes, remove_mirror_if_unused, in_group,
  leads,
}
use thingsflow.Topology.Store.Rows.{exists_where_iff, In-delete_where, ref_eq_iff, ref_eq_refl}
use thingsflow.Topology.Store.Saved.{Tenanted}
use thingsflow.Topology.Store.Mirrored.{HasMirror, Mirrored}

pub mirrors_iff :
    (from to : EntityRef) (group type : Text) (m : Relation)
    → (mirrors from to group type m ≡ true)
      ↔ ((m.from ≡ from) × (m.to ≡ to) × (m.relation_type_group ≡ group) × (m.relation_type ≡ type))
unfolding mirrors
mirrors_iff from to group type m =
    let a = ref_eq_iff m.from from in
    let b = ref_eq_iff m.to to in
    let c = text_eq_iff m.relation_type_group group in
    let d = text_eq_iff m.relation_type type in
    let ab =
      &&_iff (ref_eq m.from from)
        (ref_eq m.to to && (text_eq m.relation_type_group group && text_eq m.relation_type type)) in
    let bc =
      &&_iff (ref_eq m.to to)
        (text_eq m.relation_type_group group && text_eq m.relation_type type) in
    let cd = &&_iff (text_eq m.relation_type_group group) (text_eq m.relation_type type) in
    (
      (λ h.
          let (p, x) = ab.0 h in
          let (q, y) = bc.0 x in let (r, s) = cd.0 y in (a.0 p, b.0 q, c.0 r, d.0 s)),
      (λ h. ab.1 (a.1 h.0, bc.1 (b.1 h.1, cd.1 (c.1 h.2, d.1 h.3)))),
    )

-- A mirror stays unless it is the one that is removed, and no edge leads the same way.
remove_mirror-HasMirror :
    (tenant : Text) (a b : EntityRef) (group type : Text) (edges : List Edge) (rows : List Relation)
    (from to : EntityRef) (e : Edge)
    → HasMirror from to e rows
    → (from ≡ a
        → to ≡ b
        → e.relation_type_group ≡ group
        → e.relation_type ≡ type
        → exists_where (λ r. in_group tenant group type r && leads a b r) edges ≡ true)
    → HasMirror from to e (remove_mirror_if_unused tenant a b group type edges rows)
unfolding remove_mirror_if_unused
remove_mirror-HasMirror tenant a b group type edges rows from to e h used =
    elim (Bool-cases (exists_where (λ r. in_group tenant group type r && leads a b r) edges)) [
      | inl u ↦ rw u h
      | inr u ↦
          let (m, i, q) =
            (exists_where_iff (mirrors from to e.relation_type_group e.relation_type) rows).0 h in
          let (f, t, g, y) = (mirrors_iff from to e.relation_type_group e.relation_type m).0 q in
          rw u (
            (exists_where_iff (mirrors from to e.relation_type_group e.relation_type)
                (delete_where (mirrors a b group type) rows)).1
              (m, (In-delete_where (mirrors a b group type) rows m).1 (i, kept m f t g y u), q))
    ]
  where
    kept :
        (m : Relation)
        → m.from ≡ from
        → m.to ≡ to
        → m.relation_type_group ≡ e.relation_type_group
        → m.relation_type ≡ e.relation_type
        → exists_where (λ r. in_group tenant group type r && leads a b r) edges ≡ false
        → mirrors a b group type m ≡ false
    kept m f t g y u = elim (Bool-cases (mirrors a b group type m)) [
      | inr no_match ↦ no_match
      | inl match ↦
          let (f', t', g', y') = (mirrors_iff a b group type m).0 match in
          cc (used (sym f ∙ f') (sym t ∙ t') (sym g ∙ g') (sym y ∙ y'), u)
    ]

module _ (f : EdgeFilter) (g : Graph) where
  abbrev left : List Edge
  left = delete_where (deletes f) g.edges

  -- A row of the filter's tenant and relation that leads from the one end to the other.
  pub in_group_self :
      (r : Edge)
      → r.tenant_id ≡ f.tenant_id
      → r.relation_type_group ≡ f.relation_type_group
      → r.relation_type ≡ f.relation_type
      → in_group f.tenant_id f.relation_type_group f.relation_type r ≡ true
  unfolding in_group
  in_group_self r t y z =
      rw (t, y, z)
        (rw
          (
            text_eq_refl f.tenant_id,
            text_eq_refl f.relation_type_group,
            text_eq_refl f.relation_type,
          )
          refl)

  leads_self : (a b : EntityRef) (r : Edge) → r.from ≡ a → r.to ≡ b → leads a b r ≡ true
  unfolding leads
  leads_self a b r p q = rw (p, q) (rw (ref_eq_refl a, ref_eq_refl b) refl)

  -- No such row is left that leads along the filter, nor a bidirectional one that leads back.
  pub along :
      (r : Edge)
      → In r left
      → r.tenant_id ≡ f.tenant_id
      → r.relation_type_group ≡ f.relation_type_group
      → r.relation_type ≡ f.relation_type
      → r.from ≡ f.from
      → r.to ≡ f.to
      → ⊥
  unfolding deletes
  along r i t y z p q =
      let kept = ((In-delete_where (deletes f) g.edges r).0 i).1 in
      cc (rw (in_group_self r t y z, leads_self f.from f.to r p q) at kept)

  pub back :
      (r : Edge)
      → In r left
      → r.tenant_id ≡ f.tenant_id
      → r.relation_type_group ≡ f.relation_type_group
      → r.relation_type ≡ f.relation_type
      → is_bidirectional r ≡ true
      → r.from ≡ f.to
      → r.to ≡ f.from
      → ⊥
  unfolding deletes
  back r i t y z both p q =
      let kept = ((In-delete_where (deletes f) g.edges r).0 i).1 in
      elim (Bool-cases (leads f.from f.to r)) [
        | inl l ↦ cc (rw (in_group_self r t y z, l) at kept)
        | inr l ↦ cc (rw (in_group_self r t y z, l, both, leads_self f.to f.from r p q) at kept)
      ]

  module _ (c : Catalog) (tenanted : Tenanted c g)
      (owned : resolve_entity_tenant c.entities f.from ≡ some f.tenant_id) where
    from_tenant : (r : Edge) → In r g.edges → r.from ≡ f.from → r.tenant_id ≡ f.tenant_id
    from_tenant r i p = cc (ap (resolve_entity_tenant c.entities) p, (tenanted r i).0, owned)

    to_tenant : (r : Edge) → In r g.edges → r.to ≡ f.from → r.tenant_id ≡ f.tenant_id
    to_tenant r i p = cc (ap (resolve_entity_tenant c.entities) p, (tenanted r i).1, owned)

    was : (r : Edge) → In r left → In r g.edges
    was r i = ((In-delete_where (deletes f) g.edges r).0 i).0

    -- One removal of a mirror, along the filter or against it, for the mirror of an edge that is left.
    first-keeps :
        (from to : EntityRef) (r : Edge)
        → In r left
        → ((r.from ≡ from) × (r.to ≡ to))
          ⊎ ((is_bidirectional r ≡ true) × (r.to ≡ from) × (r.from ≡ to))
        → HasMirror from to r g.relations
        → HasMirror from to r (
            remove_mirror_if_unused f.tenant_id f.from f.to f.relation_type_group f.relation_type
              left g.relations)
    first-keeps from to r i ends h =
        remove_mirror-HasMirror f.tenant_id f.from f.to f.relation_type_group f.relation_type left
          g.relations from to r h
          (λ p q y z. elim ends [
            | inl (a, b) ↦ absurd (along r i (from_tenant r (was r i) (a ∙ p)) y z (a ∙ p) (b ∙ q))
            | inr (both, a, b) ↦
                absurd (back r i (to_tenant r (was r i) (a ∙ p)) y z both (b ∙ q) (a ∙ p))
          ])

    second-keeps :
        (from to : EntityRef) (r : Edge) (rows : List Relation)
        → In r left
        → ((r.from ≡ from) × (r.to ≡ to))
          ⊎ ((is_bidirectional r ≡ true) × (r.to ≡ from) × (r.from ≡ to))
        → HasMirror from to r rows
        → HasMirror from to r (
            remove_mirror_if_unused f.tenant_id f.to f.from f.relation_type_group f.relation_type
              left rows)
    second-keeps from to r rows i ends h =
        remove_mirror-HasMirror f.tenant_id f.to f.from f.relation_type_group f.relation_type left
          rows from to r h
          (λ p q y z. elim ends [
            | inl (a, b) ↦
                let t = to_tenant r (was r i) (b ∙ q) in
                (exists_where_iff
                    (λ x.
                      in_group f.tenant_id f.relation_type_group f.relation_type x
                      && leads f.to f.from x)
                    left).1
                  (r, i, rw (in_group_self r t y z, leads_self f.to f.from r (a ∙ p) (b ∙ q)) refl)
            | inr (both, a, b) ↦
                absurd (along r i (from_tenant r (was r i) (b ∙ q)) y z (b ∙ q) (a ∙ p))
          ])

    erase-keeps :
        (from to : EntityRef) (r : Edge)
        → In r left
        → ((r.from ≡ from) × (r.to ≡ to))
          ⊎ ((is_bidirectional r ≡ true) × (r.to ≡ from) × (r.from ≡ to))
        → HasMirror from to r g.relations
        → HasMirror from to r (erase_edge f g).relations
    unfolding erase_edge
    erase-keeps from to r i ends h =
        let once = first-keeps from to r i ends h in
        elim (Bool-cases (exists_where (λ x. deletes f x && is_bidirectional x) g.edges)) [
          | inl both ↦ rw both (second-keeps from to r _ i ends once)
          | inr one ↦ rw one once
        ]

    -- Deleting an edge keeps every edge mirrored, if each edge is within the tenant of its ends and
    -- the filter's origin is within the filter's tenant.
    pub erase_edge-Mirrored : Mirrored g → Mirrored (erase_edge f g)
    unfolding erase_edge
    erase_edge-Mirrored h r i =
        let (there, reverse) = h r (was r i) in
        (
          erase-keeps r.from r.to r i (inl (refl, refl)) there,
          (λ both. erase-keeps r.to r.from r i (inr (both, refl, refl)) (reverse both)),
        )

pub erase_edge-Tenanted :
    (f : EdgeFilter) (g : Graph) (c : Catalog) → Tenanted c g → Tenanted c (erase_edge f g)
unfolding erase_edge
erase_edge-Tenanted f g c tenanted r i = tenanted r ((In-delete_where (deletes f) g.edges r).0 i).0
