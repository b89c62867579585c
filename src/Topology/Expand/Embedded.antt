-- ===== src/Topology/Expand/Embedded.antt =====
-- What the answer of `expandRelations` in flow-core/internal/twin/expand.go holds.
use thingsflow.Base.{
  ℕ, zero, suc, ◌+◌, ◌≤◌, List, [], ◌∷◌, ◌++◌, map, ◌≡◌, ◌≢◌, ◌⊎◌, sym, subst, inl, inr, ◌||◌,
  Option, none, some, In, length, arith, Bool-cases, Option-cases, if◌then◌else◌,
}
use thingsflow.Base.Text.{Text, codes, text_eq, text_eq_iff, contains}
use thingsflow.Base.Dict.{Dict, get}
use thingsflow.Base.Result.{ok, Result-cases}
use thingsflow.Policy.Enforce.Handler.{Entity, Twins, load_entity}
use thingsflow.Topology.{EntityRef}
use thingsflow.Topology.Traverse.Query.{expand_with_cte}
use thingsflow.Topology.Expand.{
  Labels, node_key, note_neighbors, visit_frontier, label_levels, expand_depths, parse_expand_spec,
  expand_max_nodes,
}
use thingsflow.Topology.Expand.Annotate.{
  Database, Projection, of_row, embed_row, embed_entity_state, relation_neighbor, annotate,
  depth_label, reached_projection, transitive, immediate_keys, neighbors_query, expanded_relations,
  expand_to, expand_relations,
}
use thingsflow.Topology.Expand.Noted.{At, note_neighbors-Noted}

-- The tenant whose graph is walked.
abbrev pub traversal_tenant : Text → Text → Text
traversal_tenant tenant row_tenant = if text_eq tenant [] then row_tenant else tenant

pub embed_entity_state-own :
    (t : Twins) (tenant : Text) (r : EntityRef) (e : Entity)
    → embed_entity_state t tenant r ≡ of_row e
    → e.tenant_id ≡ tenant
unfolding embed_entity_state embed_row
embed_entity_state-own t tenant r e h = elim (Bool-cases t.entity_answered) [
  | inr x ↦ cc (rw x at h)
  | inl x ↦ loaded (load_entity t r.type r.id) (rw x at h)
]
  where
    loaded : (o : Option Entity) → embed_row tenant r o ≡ of_row e → e.tenant_id ≡ tenant
    loaded none q = cc q
    loaded (some e') q = elim (Bool-cases (text_eq e'.tenant_id tenant)) [
      | inl own ↦
          let same : e' ≡ e = cc (rw own at q) in
          subst (λ x. x.tenant_id ≡ tenant) same ((text_eq_iff e'.tenant_id tenant).0 own)
      | inr other ↦ cc (rw other at q)
    ]

-- A projection whose state, if it is of a row, is of a row of the tenant.
abbrev pub Isolated : Text → Projection → Type 0
Isolated tenant p = (e : Entity) → p.state ≡ some (of_row e) → e.tenant_id ≡ tenant

pub annotate-Isolated :
    (t : Twins) (tenant : Text) (root : EntityRef) (p : Projection)
    → p.state ≡ none
    → Isolated tenant (annotate t tenant root p)
unfolding annotate
annotate-Isolated t tenant root p fresh e h = elim (Option-cases (relation_neighbor p root)) [
  | inl q ↦ cc (fresh, rw (annotate, q) at h)
  | inr (r, q) ↦
      let same : embed_entity_state t tenant r ≡ of_row e = cc (rw (annotate, q) at h) in
      embed_entity_state-own t tenant r e same
]

pub transitive-All :
    (P : Projection → Type 0) (t : Twins) (tenant : Text) (root : EntityRef) (depth : ℕ)
    (depths : Dict ℕ) (immediate : List Text) (nodes : List EntityRef)
    → ((n : EntityRef)
        → P (reached_projection t tenant root (depth_label depths depth (node_key n)) n))
    → (p : Projection) → In p (transitive t tenant root depth depths immediate nodes)
    → P p
unfolding transitive
transitive-All P t tenant root depth depths immediate [] all p h = elim h [ ]
transitive-All P t tenant root depth depths immediate (n ∷ nodes) all p h =
    let rest = transitive-All P t tenant root depth depths immediate nodes all p in
    elim (Bool-cases (text_eq (node_key n) (node_key root) || contains immediate (node_key n))) [
      | inl skipped ↦ rest (rw skipped at h)
      | inr new ↦ elim (rw new at h) [ inl e ↦ subst P (sym e) (all n) | inr i ↦ rest i ]
    ]

pub length-transitive :
    (t : Twins) (tenant : Text) (root : EntityRef) (depth : ℕ) (depths : Dict ℕ)
    (immediate : List Text) (nodes : List EntityRef)
    → length (transitive t tenant root depth depths immediate nodes) ≤ length nodes
unfolding transitive
length-transitive t tenant root depth depths immediate [] = omega arith
length-transitive t tenant root depth depths immediate (n ∷ nodes) =
    ground (arith, length-transitive t tenant root depth depths immediate nodes)

-- A label is at most the number of rounds, whichever queries fail.
module _ (query : EntityRef → Option (List EntityRef)) where
  visit_frontier-labels :
      (level : ℕ) (frontier : List EntityRef) (s : Labels) (k : Text) (d : ℕ)
      → At (visit_frontier query level frontier s).depths k d
      → At s.depths k d ⊎ (d ≡ level)
  unfolding visit_frontier
  visit_frontier-labels level [] s k d h = inl h
  visit_frontier-labels level (m ∷ frontier) s k d h = elim (Option-cases (query m)) [
    | inl q ↦ visit_frontier-labels level frontier s k d (rw (visit_frontier, q) at h)
    | inr (ns, q) ↦
        elim (visit_frontier-labels level frontier (note_neighbors level ns s) k d
          (rw (visit_frontier, q) at h)) [
            | inr e ↦ inr e
            | inl old ↦ elim ((note_neighbors-Noted level ns s).fresh k d old) [
              | inl older ↦ inl older
              | inr (e, _) ↦ inr e
            ]
          ]
  ]

  label_levels-bounded :
      (rounds level bound : ℕ) (frontier : List EntityRef) (depths : Dict ℕ)
      → level + rounds ≤ bound + 1
      → ((k : Text) (d : ℕ) → At depths k d → d ≤ bound)
      → (k : Text) (d : ℕ) → At (label_levels query rounds level frontier depths) k d
      → d ≤ bound
  unfolding label_levels
  label_levels-bounded zero level bound frontier depths fits old k d h = old k d h
  label_levels-bounded (suc rounds) level bound frontier depths fits old k d h =
      let s = visit_frontier query level frontier (record { depths = depths; next = [] }) in
      label_levels-bounded rounds (level + 1) bound s.next s.depths (omega (arith, fits))
        (λ j e q. elim (visit_frontier-labels level frontier _ j e q) [
          | inl older ↦ old j e older
          | inr new ↦ omega (arith, new, fits)
        ])
        k d h

  pub expand_depths-bounded :
      (root : EntityRef) (max_depth : ℕ) (k : Text) (d : ℕ)
      → At (expand_depths query root max_depth) k d
      → d ≤ max_depth
  unfolding expand_depths
  expand_depths-bounded root max_depth k d h =
      label_levels-bounded max_depth 1 max_depth (root ∷ []) ((node_key root, 0) ∷ []) (omega arith)
        (λ j e q.
          unfold get in
          elim (Bool-cases (text_eq (node_key root) j)) [
            | inl x ↦
                let zero_depth : 0 ≡ e = ground (arith, rw x at q) in omega (arith, zero_depth)
            | inr x ↦ cc (rw x at q)
          ])
        k d h

pub depth_label-bounds :
    (depths : Dict ℕ) (depth : ℕ) (key : Text)
    → 1 ≤ depth
    → ((d : ℕ) → At depths key d → d ≤ depth)
    → (1 ≤ depth_label depths depth key) × (depth_label depths depth key ≤ depth)
unfolding depth_label
depth_label-bounds depths depth key positive bounded = elim (Option-cases (get depths key)) [
  | inl e ↦ rw (depth_label, e) (positive, omega arith)
  | inr (d, e) ↦ rw (depth_label, e) (ground (arith, bounded d e, positive))
]

-- An answer to the option: the depth that was asked for, the entities that the recursive query
-- found, and the relations with those entities.
pub expand_relations-eq-ok :
    (db : Database) (tenant row_tenant : Text) (root : EntityRef) (raw : Text)
    (relations out : List Projection)
    → raw ≢ []
    → expand_relations db tenant row_tenant root raw relations ≡ ok out
    → (depth : ℕ) × (nodes : List EntityRef) × (parse_expand_spec raw ≡ ok depth)
      × (expand_with_cte db.before db.executed db.catalog
            (traversal_tenant tenant row_tenant)
            root
            (codes "FROM")
            []
            depth
            expand_max_nodes
            db.graph
          ≡ ok nodes)
      × (out
          ≡ map (annotate db.twins (traversal_tenant tenant row_tenant) root) relations
            ++ transitive db.twins
                (traversal_tenant tenant row_tenant)
                root
                depth
                (expand_depths (neighbors_query db (traversal_tenant tenant row_tenant)) root depth)
                (immediate_keys root relations)
                nodes)
unfolding expand_relations expand_to expanded_relations
expand_relations-eq-ok db tenant row_tenant root raw relations out asked h =
    let walked = traversal_tenant tenant row_tenant in
    elim (Bool-cases (text_eq raw [])) [
      | inl e ↦ absurd (asked ((text_eq_iff raw []).0 e))
      | inr e ↦ elim (Result-cases (parse_expand_spec raw)) [
        | inl (x, q) ↦ cc (rw (e, q) at h)
        | inr (depth, q) ↦ elim (Bool-cases db.ready) [
          | inr r ↦ cc (rw (e, q, r) at h)
          | inl r ↦
              elim (Result-cases (
                expand_with_cte db.before db.executed db.catalog walked root (codes "FROM") [] depth
                  expand_max_nodes db.graph)) [
                    | inl (x, c) ↦ cc (rw (e, q, r, c) at h)
                    | inr (nodes, c) ↦ (depth, nodes, q, c, cc)
                  ]
        ]
      ]
    ]
