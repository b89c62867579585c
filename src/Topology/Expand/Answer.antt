-- ===== src/Topology/Expand/Answer.antt =====
-- The whole answer of `expandRelations` in flow-core/internal/twin/expand.go.
use thingsflow.Base.{
  ℕ, ◌+◌, ◌≤◌, List, [], map, ◌≡◌, ◌≢◌, refl, sym, subst, inl, inr, none, some, In, length,
  length-append, arith, Bool-cases, Option-cases,
}
use thingsflow.Base.Text.{Text, codes, text_eq}
use thingsflow.Policy.Enforce.Handler.{Twins}
use thingsflow.Base.Result.{ok}
use thingsflow.Topology.{EntityRef}
use thingsflow.Topology.Traverse.Rows.{In-append_iff, In-map_iff, length-map}
use thingsflow.Topology.Traverse.Expanded.{expand_with_cte-eq-ok}
use thingsflow.Topology.Expand.{expand_depths, expand_max_nodes, node_key, parse_expand_spec}
use thingsflow.Topology.Expand.Annotate.{
  Database, Projection, EmbeddedState, relation_neighbor, annotate, reached_projection, transitive,
  immediate_keys, neighbors_query, expand_relations,
}
use thingsflow.Topology.Expand.Embedded.{
  traversal_tenant, Isolated, annotate-Isolated, embed_entity_state-own, transitive-All,
  length-transitive, expand_depths-bounded, depth_label-bounds, expand_relations-eq-ok,
}
use thingsflow.Topology.Expand.Spec.{parse_expand_spec-bounds}

annotate-depth :
    (t : Twins) (tenant : Text) (root : EntityRef) (p : Projection)
    → (annotate t tenant root p).depth ≡ 1
unfolding annotate
annotate-depth t tenant root p = elim (Option-cases (relation_neighbor p root)) [
  | inl q ↦ rw (annotate, q) refl
  | inr (r, q) ↦ rw (annotate, q) refl
]

-- No answer shows another tenant's state: a state of a row that is embedded anywhere in it, of an
-- immediate relation or of an entity further away, is of a row of the tenant that is walked. The
-- relations that are handed in have no state yet.
pub expand_relations-Isolated :
    (db : Database) (tenant row_tenant : Text) (root : EntityRef) (raw : Text)
    (relations out : List Projection)
    → ((p : Projection) → In p relations → p.state ≡ none)
    → expand_relations db tenant row_tenant root raw relations ≡ ok out
    → (p : Projection) → In p out
    → Isolated (traversal_tenant tenant row_tenant) p
unfolding expand_relations
expand_relations-Isolated db tenant row_tenant root raw relations out fresh h p i =
    let walked = traversal_tenant tenant row_tenant in
    elim (Bool-cases (text_eq raw [])) [
      | inl e ↦
          let same : relations ≡ out = cc (rw (expand_relations, e) at h) in
          λ row s. cc (fresh p (subst (In p) (sym same) i), s)
      | inr e ↦
          let (depth, nodes, _, _, q) =
            expand_relations-eq-ok db tenant row_tenant root raw relations out
              (λ empty. cc (rw empty at e)) h in
          let depths = expand_depths (neighbors_query db walked) root depth in
          let keys = immediate_keys root relations in
          elim ((In-append_iff p (map (annotate db.twins walked root) relations)
              (transitive db.twins walked root depth depths keys nodes)).0
            (subst (In p) q i)) [
              | inl j ↦
                  let (p', k, s) = (In-map_iff (annotate db.twins walked root) relations p).0 j in
                  subst (Isolated walked) (sym s)
                    (annotate-Isolated db.twins walked root p' (fresh p' k))
              | inr j ↦
                  transitive-All (Isolated walked) db.twins walked root depth depths keys nodes
                    (λ n row s.
                      embed_entity_state-own db.twins walked n row
                        (some-injective (unfold reached_projection in s)))
                    p j
            ]
    ]
  where
    some-injective : {a b : EmbeddedState} → some a ≡ some b → a ≡ b
    some-injective e = cc

-- An answer is bounded: the depth that was asked for is from 1 to 10, the answer has at most 5000
-- entries more than the relations that are handed in, and each entry is labelled with a depth from 1
-- to the one that was asked for, also where queries of the labels fail.
pub expand_relations-bounded :
    (db : Database) (tenant row_tenant : Text) (root : EntityRef) (raw : Text)
    (relations out : List Projection)
    → raw ≢ []
    → expand_relations db tenant row_tenant root raw relations ≡ ok out
    → (depth : ℕ) × (parse_expand_spec raw ≡ ok depth)
      × (1 ≤ depth)
      × (depth ≤ 10)
      × (length out ≤ length relations + 5000)
      × ((p : Projection) → In p out → (1 ≤ p.depth) × (p.depth ≤ depth))
expand_relations-bounded db tenant row_tenant root raw relations out asked h =
    let walked = traversal_tenant tenant row_tenant in
    let (depth, nodes, q, c, e) =
      expand_relations-eq-ok db tenant row_tenant root raw relations out asked h in
    let (low, high) = parse_expand_spec-bounds raw depth q in
    let depths = expand_depths (neighbors_query db walked) root depth in
    let keys = immediate_keys root relations in
    let (_, few) =
      expand_with_cte-eq-ok db.before db.executed db.catalog walked root (codes "FROM") [] depth
        expand_max_nodes db.graph nodes c in
    let rest = transitive db.twins walked root depth depths keys nodes in
    (
      depth,
      q,
      low,
      high,
      subst (λ l. length l ≤ length relations + 5000) (sym e)
          (omega (
            arith,
            length-append (map (annotate db.twins walked root) relations) rest,
            length-map (annotate db.twins walked root) relations,
            length-transitive db.twins walked root depth depths keys nodes,
            few,
          )),
      (λ p i.
          elim ((In-append_iff p (map (annotate db.twins walked root) relations) rest).0
            (subst (In p) e i)) [
              | inl j ↦
                  let (p', _, s) = (In-map_iff (annotate db.twins walked root) relations p).0 j in
                  subst (λ x. (1 ≤ x.depth) × (x.depth ≤ depth)) (sym s)
                    (rw (annotate-depth db.twins walked root p') (omega arith, low))
              | inr j ↦
                  transitive-All (λ x. (1 ≤ x.depth) × (x.depth ≤ depth)) db.twins walked root depth
                    depths keys nodes
                    (λ n.
                      unfold reached_projection in
                      depth_label-bounds depths depth (node_key n) low (λ d a.
                        expand_depths-bounded (neighbors_query db walked) root depth (node_key n) d
                          a))
                    p j
            ]),
    )
