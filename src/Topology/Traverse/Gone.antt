-- ===== src/Topology/Traverse/Gone.antt =====
-- What the walks of flow-core/internal/topology/topology.go see of an edge that was deleted.
use thingsflow.Base.{[], ◌∷◌, ◌≡◌, sym, ◌∙◌, ap, inl, inr, Bool, true, ◌&&◌, In, &&_iff}
use thingsflow.Base.Text.{Text, text_eq, text_eq_iff, contains, contains_iff}
use thingsflow.Topology.{Edge, EdgeFilter, Catalog, Graph, common}
use thingsflow.Topology.Model.{is_bidirectional}
use thingsflow.Topology.Store.{erase_edge, mirrors}
use thingsflow.Topology.Store.Rows.{exists_where_iff}
use thingsflow.Topology.Store.Deleted.{along, back, mirrors_iff}
use thingsflow.Topology.Store.Foreign.{erase_edge-unmirrored}
use thingsflow.Topology.Traverse.{
  along as along_link, against, select, selected, is_directed, legacy_selected, legacy_along,
  union_from,
}
use thingsflow.Topology.Traverse.Rows.{In-select_iff, In-four_iff}

only : (t u : Text) → contains (t ∷ []) u ≡ true → u ≡ t
only t u h = elim ((contains_iff (t ∷ []) u).0 h) [ inl e ↦ e | inr x ↦ elim x [ ] ]

module _ (c : Catalog) (f : EdgeFilter) (g : Graph) (group : f.relation_type_group ≡ common) where
  abbrev left : Graph
  left = erase_edge f g

  -- A selected edge is of the filter's tenant and relation.
  selected-fields :
      (r : Edge) (more : Bool)
      → (selected f.tenant_id (f.relation_type ∷ []) r && more) ≡ true
      → (r.tenant_id ≡ f.tenant_id)
        × (r.relation_type_group ≡ f.relation_type_group)
        × (r.relation_type ≡ f.relation_type)
        × (more ≡ true)
  unfolding selected
  selected-fields r more h =
      let (s, m) = (&&_iff (selected f.tenant_id (f.relation_type ∷ []) r) more).0 h in
      let (t, s1) = (&&_iff (text_eq r.tenant_id f.tenant_id) _).0 s in
      let (k, y) = (&&_iff (text_eq r.relation_type_group common) _).0 s1 in
      (
        (text_eq_iff r.tenant_id f.tenant_id).0 t,
        (text_eq_iff r.relation_type_group common).0 k ∙ sym group,
        only f.relation_type r.relation_type y,
        m,
      )

  along-gone :
      (p : Edge → Bool)
      → In
          (record { node = f.from; nb = f.to })
          (select (λ e. selected f.tenant_id (f.relation_type ∷ []) e && p e) along_link left.edges)
      → ⊥
  unfolding erase_edge along_link
  along-gone p h =
      let (r, i, s, q) =
        (In-select_iff (λ e. selected f.tenant_id (f.relation_type ∷ []) e && p e) along_link
            left.edges _).0
          h in
      let (t, k, y, _) = selected-fields r (p r) s in
      along f g r i t k y (sym (ap (λ l. l.node) q)) (sym (ap (λ l. l.nb) q))

  against-gone :
      In
        (record { node = f.from; nb = f.to })
        (select
          (λ e. selected f.tenant_id (f.relation_type ∷ []) e && is_bidirectional e)
          against
          left.edges)
      → ⊥
  unfolding erase_edge against
  against-gone h =
      let (r, i, s, q) =
        (In-select_iff (λ e. selected f.tenant_id (f.relation_type ∷ []) e && is_bidirectional e)
            against left.edges _).0
          h in
      let (t, k, y, both) = selected-fields r (is_bidirectional r) s in
      back f g r i t k y both (sym (ap (λ l. l.nb) q)) (sym (ap (λ l. l.node) q))

  legacy-gone :
      In
        (record { node = f.from; nb = f.to })
        (select
          (λ r. legacy_selected c f.tenant_id (f.relation_type ∷ []) left.edges r.to r)
          legacy_along
          left.relations)
      → ⊥
  unfolding legacy_selected legacy_along
  legacy-gone h =
      let (r, i, s, q) =
        (In-select_iff (λ r. legacy_selected c f.tenant_id (f.relation_type ∷ []) left.edges r.to r)
            legacy_along left.relations _).0
          h in
      let (k, s1) = (&&_iff (text_eq r.relation_type_group common) _).0 s in
      let (y, _) = (&&_iff (contains (f.relation_type ∷ []) r.relation_type) _).0 s1 in
      erase_edge-unmirrored f g (
        (exists_where_iff (mirrors f.from f.to f.relation_type_group f.relation_type)
            left.relations).1
          (
            r,
            i,
            (mirrors_iff f.from f.to f.relation_type_group f.relation_type r).1 (
              sym (ap (λ l. l.node) q),
              sym (ap (λ l. l.nb) q),
              (text_eq_iff r.relation_type_group common).0 k ∙ sym group,
              only f.relation_type r.relation_type y,
            ),
          ))

  -- What is deleted is not seen: after DeleteEdge along a filter of the group COMMON, no link of the
  -- filter's tenant and type leads from the filter's origin to its target, neither an edge of either
  -- direction nor a row of `relation`.
  pub erase_edge-invisible :
      ¬ In
        (record { node = f.from; nb = f.to })
        (union_from c f.tenant_id (f.relation_type ∷ []) left)
  unfolding union_from
  erase_edge-invisible h = elim ((In-four_iff _ _ _ _ _).0 h) [
    | inl i ↦ along-gone is_directed i
    | inr (inl i) ↦ along-gone is_bidirectional i
    | inr (inr (inl i)) ↦ against-gone i
    | inr (inr (inr i)) ↦ legacy-gone i
  ]
