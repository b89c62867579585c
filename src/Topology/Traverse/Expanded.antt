-- ===== src/Topology/Traverse/Expanded.antt =====
-- What `ExpandWithCTE` of flow-core/internal/topology/topology.go returns.
use thingsflow.Base.{
  ℕ, suc, ◌≤◌, List, map, ◌≡◌, ◌↔◌, refl, sym, ◌∙◌, ap, subst, inl, inr, Bool, true, false, In,
  NoDup, arith, Bool-cases, ltb, length, take, if◌then◌else◌,
}
use thingsflow.Base.Text.{Text}
use thingsflow.Base.Result.{ok, err}
use thingsflow.Topology.{EntityRef, Catalog, Graph, ref_eq, normalize_ref}
use thingsflow.Topology.Store.Rows.{ref_eq_iff}
use thingsflow.Topology.Traverse.{Link, neighbors_of, distinct_on, edge_source}
use thingsflow.Topology.Traverse.Query.{
  ExpandRow, expand_all, expand_query, order_by, by_node, by_depth, expand_with_cte, within_budget,
  traversal_budget,
}
use thingsflow.Topology.Traverse.Walk.{Walk, Within}
use thingsflow.Topology.Traverse.Rows.{
  In-map_iff, In-order_by, NoDup-order_by, In-distinct_on, distinct_on-In, distinct_on-NoDup,
  length-map, take-more, take-short, map-map,
}
use thingsflow.Topology.Traverse.Levels.{expand_all-Generated}
use thingsflow.Topology.Traverse.Reach.{Plain, expand_all_iff, Generated-Walk}

abbrev node_of : ExpandRow → EntityRef
node_of r = r.node

abbrev same_node : ExpandRow → ExpandRow → Bool
same_node a b = ref_eq a.node b.node

-- The limit shows whether the budget is enough, and then leaves nothing out.
within_budget-take :
    (max_nodes : ℕ) (rows : List ExpandRow)
    → within_budget max_nodes (map (λ r. normalize_ref r.node) (take (suc max_nodes) rows)) ≡ (
        if ltb max_nodes (length (map node_of rows))
        then err traversal_budget
        else ok (map normalize_ref (map node_of rows)))
unfolding within_budget
within_budget-take max_nodes rows =
    let out : ExpandRow → EntityRef = λ r. normalize_ref r.node in
    let limited : ltb max_nodes (length (map out (take (suc max_nodes) rows)))
        ≡ ltb max_nodes (length rows) =
      ap (ltb max_nodes) (length-map out (take (suc max_nodes) rows)) ∙ take-more max_nodes rows in
    rw (length-map node_of rows) (elim (Bool-cases (ltb max_nodes (length rows))) [
      | inl more ↦ rw (limited, more) refl
      | inr enough ↦
          rw (limited, enough)
            (ap ok (
              ap (map out) (take-short max_nodes rows (ground (arith, enough)))
              ∙ sym (map-map normalize_ref node_of rows)))
    ])

module _ (before : Text → Text → Bool) (union : List Link) (max_depth : ℕ) (root : EntityRef) where
  query-NoDup : NoDup (map node_of (expand_query before union max_depth root))
  unfolding expand_query
  query-NoDup =
      NoDup-order_by (by_depth before) node_of
        (distinct_on same_node (order_by (by_node before) (expand_all union max_depth root)))
        (distinct_on-NoDup same_node node_of (λ a b. ref_eq_iff a.node b.node)
          (order_by (by_node before) (expand_all union max_depth root)))

  -- Ordering and leaving out what is the same neither loses an entity nor adds one.
  In-query :
      (n : EntityRef)
      → In n (map node_of (expand_query before union max_depth root))
        ↔ ((r : ExpandRow) × In r (expand_all union max_depth root) × (r.node ≡ n))
  unfolding expand_query
  In-query n =
      let all = expand_all union max_depth root in
      let ordered = order_by (by_node before) all in
      let kept = distinct_on same_node ordered in
      (
        (λ h.
            let (r, i, e) = (In-map_iff node_of (order_by (by_depth before) kept) n).0 h in
            let j =
              In-distinct_on same_node ordered r ((In-order_by (by_depth before) kept r).0 i) in
            (r, (In-order_by (by_node before) all r).0 j, sym e)),
        (λ h.
            let (r, i, e) = h in
            let (r', j, q) =
              distinct_on-In same_node node_of (λ a b. ref_eq_iff a.node b.node) ordered r
                ((In-order_by (by_node before) all r).1 i) in
            (In-map_iff node_of (order_by (by_depth before) kept) n).1
              (r', (In-order_by (by_depth before) kept r').1 j, sym (q ∙ e))),
      )

-- ExpandWithCTE, with limits of at least one and a query that succeeds, fails only for the budget:
-- there is a list of different entities, exactly those that a walk of at most `max_depth` visible
-- edges reaches from the root, and it returns this list with the types normalized, whole, or the
-- error of the budget if the list has more than `max_nodes` entities. The types of the root and of
-- the neighbours have no colon.
pub expand_with_cte_iff :
    (before : Text → Text → Bool) (c : Catalog) (tenant : Text) (root : EntityRef)
    (direction : Text) (types : List Text) (max_depth max_nodes : ℕ) (g : Graph)
    → 1 ≤ max_depth
    → 1 ≤ max_nodes
    → Plain (normalize_ref root)
    → ((l : Link) → In l (edge_source c tenant direction types g) → Plain l.nb)
    → (found : List EntityRef) × NoDup found
      × ((n : EntityRef)
          → In n found
            ↔ Within
                (neighbors_of (edge_source c tenant direction types g))
                (normalize_ref root)
                max_depth
                n)
      × (expand_with_cte before true c tenant root direction types max_depth max_nodes g ≡ (
          if ltb max_nodes (length found)
          then err traversal_budget
          else ok (map normalize_ref found)))
unfolding expand_with_cte
expand_with_cte_iff before c tenant root direction types max_depth max_nodes g d m plain_root
      plain =
    let union = edge_source c tenant direction types g in
    let start = normalize_ref root in
    (
      map node_of (expand_query before union max_depth start),
      query-NoDup before union max_depth start,
      (λ n.
          let q = In-query before union max_depth start n in
          let r = expand_all_iff union max_depth start plain_root plain n in
          ((λ h. r.0 (q.0 h)), (λ h. q.1 (r.1 h)))),
      rw (ltb_false max_depth 1 d, ltb_false max_nodes 1 m)
          (within_budget-take max_nodes (expand_query before union max_depth start)),
    )
  where
    ltb_false : (a b : ℕ) → b ≤ a → ltb a b ≡ false
    ltb_false a b h = ground (arith, h)

-- A result is the whole query, its types normalized, and within the budget.
pub expand_with_cte-eq-ok :
    (before : Text → Text → Bool) (executed : Bool) (c : Catalog) (tenant : Text) (root : EntityRef)
    (direction : Text) (types : List Text) (max_depth max_nodes : ℕ) (g : Graph)
    (out : List EntityRef)
    → expand_with_cte before executed c tenant root direction types max_depth max_nodes g ≡ ok out
    → (out
        ≡ map normalize_ref (
            map node_of (
              expand_query before
                (edge_source c tenant direction types g)
                max_depth
                (normalize_ref root))))
      × (length out ≤ max_nodes)
unfolding expand_with_cte
expand_with_cte-eq-ok before executed c tenant root direction types max_depth max_nodes g out h =
    let rows =
      expand_query before (edge_source c tenant direction types g) max_depth (normalize_ref root) in
    let bounded = within_budget-take max_nodes rows in
    elim (Bool-cases (ltb max_depth 1)) [
      | inl e ↦ cc (rw e at h)
      | inr e ↦ elim (Bool-cases (ltb max_nodes 1)) [
        | inl q ↦ cc (rw (e, q) at h)
        | inr q ↦ elim (Bool-cases executed) [
          | inr x ↦ cc (rw (e, q, x) at h)
          | inl x ↦ elim (Bool-cases (ltb max_nodes (length (map node_of rows)))) [
            | inl over ↦ cc (rw over at bounded, rw (e, q, x) at h)
            | inr fits ↦
                let whole : out ≡ map normalize_ref (map node_of rows) =
                  cc (rw fits at bounded, rw (e, q, x) at h) in
                (
                  whole,
                  subst (λ l. length l ≤ max_nodes) (sym whole)
                      (rw (length-map normalize_ref (map node_of rows)) (ground (arith, fits))),
                )
          ]
        ]
      ]
    ]

-- Every entity of a result is the end of a walk within the depth.
pub expand_with_cte-Within :
    (before : Text → Text → Bool) (executed : Bool) (c : Catalog) (tenant : Text) (root : EntityRef)
    (direction : Text) (types : List Text) (max_depth max_nodes : ℕ) (g : Graph)
    (out : List EntityRef)
    → expand_with_cte before executed c tenant root direction types max_depth max_nodes g ≡ ok out
    → (r : EntityRef) → In r out
    → (n : EntityRef) × (r ≡ normalize_ref n)
      × Within
          (neighbors_of (edge_source c tenant direction types g))
          (normalize_ref root)
          max_depth
          n
expand_with_cte-Within before executed c tenant root direction types max_depth max_nodes g out h r
      i =
    let union = edge_source c tenant direction types g in
    let start = normalize_ref root in
    let whole =
      (expand_with_cte-eq-ok before executed c tenant root direction types max_depth max_nodes g out
        h).0 in
    let (n, j, e) =
      (In-map_iff normalize_ref (map node_of (expand_query before union max_depth start)) r).0
        (subst (In r) whole i) in
    let (row, k, q) = (In-query before union max_depth start n).0 j in
    let (w, d) =
      Generated-Walk union max_depth start row
        ((expand_all-Generated union max_depth start row).0 k) in
    (n, e, (row.depth, subst (λ x. Walk (neighbors_of union) start x row.depth) q w, d))
