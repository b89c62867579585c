-- ===== src/Topology/Expand/Agree.antt =====
-- The two walks that `expandRelations` of flow-core/internal/twin/expand.go makes, the recursive
-- query and the search for the depths, over the same neighbours.
use thingsflow.Base.{ℕ, ◌≤◌, List, [], ◌≡◌, refl, sym, ◌∙◌, ap, subst, true, some, In, arith}
use thingsflow.Base.Text.{Text, codes}
use thingsflow.Base.Dict.{get}
use thingsflow.Base.Result.{ok}
use thingsflow.Topology.{EntityRef, ref_eq, normalize_ref}
use thingsflow.Topology.Store.Rows.{ref_eq_iff}
use thingsflow.Topology.Traverse.{Link, edge_source, neighbors_of, neighbors_tenant, distinct_on}
use thingsflow.Topology.Traverse.Query.{expand_with_cte}
use thingsflow.Topology.Traverse.Walk.{Walk, here, onward}
use thingsflow.Topology.Traverse.Rows.{In-map_iff, distinct_on-In}
use thingsflow.Topology.Traverse.Levels.{In-neighbors_of}
use thingsflow.Topology.Traverse.Expanded.{expand_with_cte-Within}
use thingsflow.Topology.Expand.{node_key, expand_depths, expand_max_nodes}
use thingsflow.Topology.Expand.Annotate.{Database, neighbors_query}
use thingsflow.Topology.Expand.Shortest.{expand_depths-shortest}

abbrev pub Normal : EntityRef → Type 0
Normal r = normalize_ref r ≡ r

module _ (db : Database) (tenant : Text) where
  abbrev pub source : List Link
  source = edge_source db.catalog tenant (codes "FROM") [] db.graph

  abbrev pub neighbors : EntityRef → List EntityRef
  neighbors r = neighbors_tenant db.catalog tenant r (codes "FROM") [] db.graph

  module _ (normal : (l : Link) → In l source → Normal l.nb) where
    Normal-nb : (m n : EntityRef) → In n (neighbors_of source m) → Normal n
    Normal-nb m n i =
        let (l, j, a, b) = (In-neighbors_of source m n).0 i in subst Normal b (normal l j)

    -- What the recursive query joins, the one-hop query returns.
    In-neighbors : (m n : EntityRef) → Normal m → In n (neighbors_of source m) → In n (neighbors m)
    unfolding neighbors_tenant
    In-neighbors m n p i =
        let found = distinct_on ref_eq (neighbors_of source (normalize_ref m)) in
        let (n', j, e) =
          distinct_on-In ref_eq (λ x. x) ref_eq_iff (neighbors_of source (normalize_ref m)) n
            (subst (λ x. In n (neighbors_of source x)) (sym p) i) in
        (In-map_iff normalize_ref found n).1 (n', j, sym (ap normalize_ref e ∙ Normal-nb m n i))

    Walk-neighbors :
        {root n : EntityRef} {k : ℕ}
        → Normal root
        → Walk (neighbors_of source) root n k
        → Walk neighbors root n k × Normal n
    Walk-neighbors p here = (here, p)
    Walk-neighbors p (onward {m = m} {n = n} w i) =
        let (v, q) = Walk-neighbors p w in (onward v (In-neighbors m n q i), Normal-nb m n i)

    -- The two walks agree: every entity that the recursive query returns is labelled, with the least
    -- number of edges that lead there from the root, at most the depth that was asked for. Every
    -- query of the labels succeeds, the types of the root and of the visible neighbours are
    -- normalized, and different entities that are reached have different keys.
    pub expand_with_cte-labelled :
        (root : EntityRef) (depth : ℕ) (nodes : List EntityRef)
        → Normal root
        → ((r : EntityRef) → db.answers r ≡ true)
        → ((a b : EntityRef) (i j : ℕ)
            → Walk neighbors root a i
            → Walk neighbors root b j
            → node_key a ≡ node_key b
            → a ≡ b)
        → expand_with_cte db.before db.executed db.catalog tenant root
            (codes "FROM")
            []
            depth
            expand_max_nodes
            db.graph
          ≡ ok nodes
        → (n : EntityRef) → In n nodes
        → (d : ℕ) × (get (expand_depths (neighbors_query db tenant) root depth) (node_key n)
            ≡ some d)
          × (d ≤ depth)
          × Walk neighbors root n d
          × ((j : ℕ) → Walk neighbors root n j → d ≤ j)
    unfolding neighbors_query
    expand_with_cte-labelled root depth nodes p answered distinct h n i =
        let (n0, e, (k, w, b)) =
          expand_with_cte-Within db.before db.executed db.catalog tenant root (codes "FROM") []
            depth expand_max_nodes db.graph nodes h n i in
        let (v, q) = Walk-neighbors p (subst (λ x. Walk (neighbors_of source) x n0 k) p w) in
        let there : Walk neighbors root n k =
          subst (λ x. Walk neighbors root x k) (sym (e ∙ q)) v in
        let (d, a, u, least) = expand_depths-shortest neighbors root distinct depth n k there b in
        let same : (λ (r : EntityRef). some (neighbors r)) ≡ neighbors_query db tenant =
          λ i r. sym (all_answered r) i in
        (
          d,
          subst (λ x. get (expand_depths x root depth) (node_key n) ≡ some d) same a,
          omega (arith, least k there, b),
          u,
          least,
        )
      where
        all_answered : (r : EntityRef) → neighbors_query db tenant r ≡ some (neighbors r)
        all_answered r = rw (answered r) refl
