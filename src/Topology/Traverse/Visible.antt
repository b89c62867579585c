-- ===== src/Topology/Traverse/Visible.antt =====
-- What the walks of flow-core/internal/topology/topology.go see of the edges that are written.
use thingsflow.Base.{
  List, ◌≡◌, ◌≢◌, ◌⊎◌, refl, sym, ◌∙◌, subst, inl, inr, Bool, true, false, ◌&&◌, ◌||◌, Option, none,
  some, In, arith, &&_iff, ||_iff,
}
use thingsflow.Base.Text.{Text, text_eq, text_eq_iff, text_eq_refl, contains}
use thingsflow.Topology.{EntityRef, Edge, Catalog, Graph, ref_eq, common, directed, bidirectional}
use thingsflow.Topology.Model.{is_bidirectional}
use thingsflow.Topology.Store.{
  exists_where, find_where, in_group, leads, same_key, same_pair, touch_edge, insert_edge,
  update_pair, save_topology_edge, write_edge,
}
use thingsflow.Topology.Store.Rows.{
  exists_where_iff, exists_where-upsert_self, exists_where-update_where, find_where-some,
  ref_eq_iff, ref_eq_refl,
}
use thingsflow.Topology.Traverse.{
  Link, along, against, select, selected, is_directed, legacy_selected, legacy_along,
  legacy_against, union_from, union_to,
}
use thingsflow.Topology.Traverse.Rows.{In-select_iff, In-four_iff}

insert_edge-exists :
    (e : Edge) (rows : List Edge) → exists_where (same_key e) (insert_edge e rows) ≡ true
unfolding insert_edge
insert_edge-exists e rows =
    exists_where-upsert_self (same_key e) (touch_edge e) (record e { version = 1 }) rows
      (λ r. unfold same_key touch_edge in_group leads in refl)
      (unfold same_key in_group leads in
        rw
          (
            text_eq_refl e.tenant_id,
            text_eq_refl e.relation_type_group,
            text_eq_refl e.relation_type,
            ref_eq_refl e.from,
            ref_eq_refl e.to,
            text_eq_refl e.direction,
          )
          refl)

same_key-pair :
    (e r : Edge) → is_bidirectional e ≡ true → same_key e r ≡ true → same_pair e r ≡ true
unfolding same_key same_pair is_bidirectional
same_key-pair e r both h =
    let (g, h1) = (&&_iff (in_group e.tenant_id e.relation_type_group e.relation_type r) _).0 h in
    let (l, d) = (&&_iff (leads e.from e.to r) _).0 h1 in
    let same : r.direction ≡ e.direction = (text_eq_iff r.direction e.direction).0 d in
    rw (g, same, both, l) refl

exists_where_mono :
    {R : Type 0} (p q : R → Bool) (rows : List R)
    → ((r : R) → p r ≡ true → q r ≡ true)
    → exists_where p rows ≡ true
    → exists_where q rows ≡ true
exists_where_mono p q rows f h =
    let (r, i, e) = (exists_where_iff p rows).0 h in (exists_where_iff q rows).1 (r, i, f r e)

directed-ne-bidirectional : directed ≢ bidirectional
directed-ne-bidirectional = λ h. cc h

-- A row has the key, or it is bidirectional between the ends if the edge is.
save_topology_edge-exists :
    (e : Edge) (rows : List Edge)
    → (is_bidirectional e ≡ false → exists_where (same_key e) (save_topology_edge e rows) ≡ true)
      × (is_bidirectional e ≡ true → exists_where (same_pair e) (save_topology_edge e rows) ≡ true)
unfolding save_topology_edge update_pair
save_topology_edge-exists e rows = (
  (λ one. rw one (insert_edge-exists e rows)),
  (λ both. rw both (pair both (find_where (same_pair e) rows) refl)),
)
  where
    pair :
        is_bidirectional e ≡ true
        → (o : Option Edge) → find_where (same_pair e) rows ≡ o
        → exists_where (same_pair e) (update_pair e rows o) ≡ true
    pair both none h =
        exists_where_mono (same_key e) (same_pair e) (insert_edge e rows)
          (λ r q. same_key-pair e r both q) (insert_edge-exists e rows)
    pair both (some found) h =
        exists_where-update_where (same_key found) (touch_edge e) (same_pair e) rows
          (λ r. unfold same_pair touch_edge in_group leads is_bidirectional in refl)
          (find_where-some (same_pair e) rows found h)

leads-along :
    (a b : EntityRef) (r : Edge) → leads a b r ≡ true → along r ≡ (record { node = a; nb = b })
unfolding along leads
leads-along a b r h =
    let (p, q) = (&&_iff (ref_eq r.from a) (ref_eq r.to b)).0 h in
    let from = (ref_eq_iff r.from a).0 p in
    let to = (ref_eq_iff r.to b).0 q in λ j. record { node = from j; nb = to j }

leads-against :
    (a b : EntityRef) (r : Edge) → leads a b r ≡ true → against r ≡ (record { node = b; nb = a })
unfolding against leads
leads-against a b r h =
    let (p, q) = (&&_iff (ref_eq r.from a) (ref_eq r.to b)).0 h in
    let from = (ref_eq_iff r.from a).0 p in
    let to = (ref_eq_iff r.to b).0 q in λ j. record { node = to j; nb = from j }

module _ (c : Catalog) (types : List Text) (e : Edge) where
  -- The row is of the edge's tenant and relation, and selected.
  group-selected :
      (r : Edge)
      → e.relation_type_group ≡ common
      → contains types e.relation_type ≡ true
      → in_group e.tenant_id e.relation_type_group e.relation_type r ≡ true
      → selected e.tenant_id types r ≡ true
  unfolding in_group selected
  group-selected r k t h =
      let (a, h1) = (&&_iff (text_eq r.tenant_id e.tenant_id) _).0 h in
      let (b, y) = (&&_iff (text_eq r.relation_type_group e.relation_type_group) _).0 h1 in
      let same : r.relation_type ≡ e.relation_type =
        (text_eq_iff r.relation_type e.relation_type).0 y in
      rw (a, subst (λ x. text_eq r.relation_type_group x ≡ true) k b, same, t) refl

  module _ (g : Graph) (common_group : e.relation_type_group ≡ common)
      (wanted : contains types e.relation_type ≡ true) (r : Edge) (i : In r g.edges)
      (grouped : in_group e.tenant_id e.relation_type_group e.relation_type r ≡ true) where
    row-In :
        (p : Edge → Bool) (columns : Edge → Link) (l : Link)
        → p r ≡ true
        → columns r ≡ l
        → In l (select (λ x. selected e.tenant_id types x && p x) columns g.edges)
    row-In p columns l h q =
        (In-select_iff (λ x. selected e.tenant_id types x && p x) columns g.edges l).1
          (r, i, rw (group-selected r common_group wanted grouped, h) refl, sym q)

    -- A bidirectional row leads from both ends to the other in the middle of the union.
    both-In :
        (a b : EntityRef)
        → is_bidirectional r ≡ true
        → (leads a b r || leads b a r) ≡ true
        → (let l : Link = record { node = a; nb = b } in
            In l (select (λ x. selected e.tenant_id types x && is_bidirectional x) along g.edges)
            ⊎ In l
                (select (λ x. selected e.tenant_id types x && is_bidirectional x) against g.edges))
    both-In a b both h = elim ((||_iff (leads a b r) (leads b a r)).0 h) [
      | inl x ↦ inl (row-In is_bidirectional along _ both (leads-along a b r x))
      | inr x ↦ inr (row-In is_bidirectional against _ both (leads-against b a r x))
    ]

  abbrev pub LinkFrom : Graph → EntityRef → EntityRef → Type 0
  LinkFrom g a b = In (record { node = a; nb = b }) (union_from c e.tenant_id types g)

  abbrev pub LinkTo : Graph → EntityRef → EntityRef → Type 0
  LinkTo g a b = In (record { node = a; nb = b }) (union_to c e.tenant_id types g)

  module _ (g : Graph) (common_group : e.relation_type_group ≡ common)
      (wanted : contains types e.relation_type ≡ true) where
    -- A bidirectional row is seen from either end, in both directions.
    pair-links :
        exists_where (same_pair e) g.edges ≡ true
        → LinkFrom g e.from e.to × LinkFrom g e.to e.from × LinkTo g e.to e.from
    unfolding same_pair union_from union_to
    pair-links h =
        let (r, i, q) = (exists_where_iff (same_pair e) g.edges).0 h in
        let (k, q1) =
          (&&_iff (in_group e.tenant_id e.relation_type_group e.relation_type r) _).0 q in
        let (both, l) = (&&_iff (is_bidirectional r) _).0 q1 in
        let there = both-In g common_group wanted r i k e.from e.to both l in
        let back = both-In g common_group wanted r i k e.to e.from both (ground (arith, l)) in
        (
          (In-four_iff _ _ _ _ _).1
              (elim there [ inl x ↦ inr (inl x) | inr x ↦ inr (inr (inl x)) ]),
          (In-four_iff _ _ _ _ _).1 (elim back [ inl x ↦ inr (inl x) | inr x ↦ inr (inr (inl x)) ]),
          (In-four_iff _ _ _ _ _).1 (elim back [ inl x ↦ inr (inl x) | inr x ↦ inr (inr (inl x)) ]),
        )

    key-links :
        e.direction ≡ directed
        → exists_where (same_key e) g.edges ≡ true
        → LinkFrom g e.from e.to × LinkTo g e.to e.from
    unfolding same_key union_from union_to is_directed
    key-links d h =
        let (r, i, q) = (exists_where_iff (same_key e) g.edges).0 h in
        let (k, q1) =
          (&&_iff (in_group e.tenant_id e.relation_type_group e.relation_type r) _).0 q in
        let (l, s) = (&&_iff (leads e.from e.to r) _).0 q1 in
        let one : is_directed r ≡ true = subst (λ x. text_eq r.direction x ≡ true) d s in
        (
          (In-four_iff _ _
                (select (λ x. selected e.tenant_id types x && is_bidirectional x) along g.edges)
                (select (λ x. selected e.tenant_id types x && is_bidirectional x) against g.edges)
                (select (λ r. legacy_selected c e.tenant_id types g.edges r.to r) legacy_along
                  g.relations)).1
              (inl (
                row-In g common_group wanted r i k is_directed along _ one
                  (leads-along e.from e.to r l))),
          (In-four_iff _ _
                (select (λ x. selected e.tenant_id types x && is_bidirectional x) along g.edges)
                (select (λ x. selected e.tenant_id types x && is_bidirectional x) against g.edges)
                (select (λ r. legacy_selected c e.tenant_id types g.edges r.from r) legacy_against
                  g.relations)).1
              (inl (
                row-In g common_group wanted r i k is_directed against _ one
                  (leads-against e.from e.to r l))),
        )

-- What is written is seen: an edge of the group COMMON and of a direction that SaveEdge admits is,
-- under any list of types with its own, among the links of its tenant, from its origin in the direction FROM and from its target
-- in the direction TO, and if it is bidirectional from its target in the direction FROM too.
pub write_edge-visible :
    (c : Catalog) (types : List Text) (e : Edge) (g : Graph)
    → e.relation_type_group ≡ common
    → contains types e.relation_type ≡ true
    → (e.direction ≡ directed) ⊎ (e.direction ≡ bidirectional)
    → LinkFrom c types e (write_edge e g) e.from e.to
      × LinkTo c types e (write_edge e g) e.to e.from
      × (e.direction ≡ bidirectional → LinkFrom c types e (write_edge e g) e.to e.from)
unfolding write_edge
write_edge-visible c types e g k w (inl one) =
    let (there, back) =
      key-links c types e (write_edge e g) k w one
        ((save_topology_edge-exists e g.edges).0 (unfold is_bidirectional in rw one refl)) in
    (there, back, (λ both. absurd (directed-ne-bidirectional (sym one ∙ both))))
write_edge-visible c types e g k w (inr both) =
    let (there, reverse, back) =
      pair-links c types e (write_edge e g) k w
        ((save_topology_edge-exists e g.edges).1 (unfold is_bidirectional in rw both refl)) in
    (there, back, (λ _. reverse))
