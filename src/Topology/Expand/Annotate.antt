-- ===== src/Topology/Expand/Annotate.antt =====
-- The relations that `expandRelations` of flow-core/internal/twin/expand.go answers. Of an embedded
-- state the model tells whether it is of a row or bare; which attributes of the row it has is left
-- out.
use thingsflow.Base.{
  ℕ, List, [], ◌∷◌, ◌++◌, map, Bool, not, ◌&&◌, ◌||◌, Option, none, some, ◌==◌, if◌then◌else◌,
}
use thingsflow.Base.Text.{Text, codes, text_eq, contains, to_lower}
use thingsflow.Base.Dict.{Dict, get}
use thingsflow.Base.Result.{Result, ok, err}
use thingsflow.Policy.Enforce.Handler.{Entity, Twins, load_entity}
use thingsflow.Topology.{EntityRef, Catalog, Graph, ref_eq}
use thingsflow.Topology.Model.{is_bidirectional}
use thingsflow.Topology.Traverse.{neighbors_tenant, select}
use thingsflow.Topology.Traverse.Query.{ExpandError, traversal_budget, expand_with_cte}
use thingsflow.Topology.Expand.{
  SpecError, expand_depths, expand_max_nodes, node_key, parse_expand_spec,
}

-- What is embedded of a neighbour: its reference alone, or attributes of its row.
pub data EmbeddedState : Type 0 where
  bare : EntityRef → EmbeddedState
  of_row : Entity → EmbeddedState

pub record Projection : Type 0 where
  pub type : Text
  pub group : Text
  pub direction : Text
  pub source : Text
  pub target : Text
  pub source_entity : EntityRef
  pub target_entity : EntityRef
  pub depth : ℕ
  pub state : Option EmbeddedState

-- `thingID`
unfoldable pub thing_id : Text → EntityRef → Text
unfolding to_lower
thing_id tenant r = tenant ++ (codes ":" ++ (to_lower r.type ++ (codes ":" ++ r.id)))

-- `loadRelations`, but for the order of its rows.
unfoldable pub load_relations : Text → EntityRef → Graph → List Projection
unfolding select text_eq ref_eq is_bidirectional thing_id
load_relations tenant root g =
    select (λ e. text_eq e.tenant_id tenant && (ref_eq e.from root || ref_eq e.to root))
      (λ e. record {
        type = e.relation_type;
        group = e.relation_type_group;
        direction =
            if is_bidirectional e
            then codes "BOTH"
            else if ref_eq e.to root
            then codes "IN"
            else codes "OUT";
        source = thing_id tenant e.from;
        target = thing_id tenant e.to;
        source_entity = e.from;
        target_entity = e.to;
        depth = 0;
        state = none;
      })
      g.edges

unfoldable pub other_end : EntityRef → EntityRef → Option EntityRef
unfolding text_eq ref_eq
other_end root r =
    if text_eq r.type [] || text_eq r.id [] then none else if ref_eq r root then none else some r

-- `relationNeighbor`
unfoldable pub relation_neighbor : Projection → EntityRef → Option EntityRef
unfolding other_end
relation_neighbor p root = elim (other_end root p.source_entity) [
  | some r ↦ some r
  | none ↦ other_end root p.target_entity
]

unfoldable pub embed_row : Text → EntityRef → Option Entity → EmbeddedState
unfolding text_eq
embed_row tenant r none = bare r
embed_row tenant r (some e) = if text_eq e.tenant_id tenant then of_row e else bare r

-- `embedEntityState`
unfoldable pub embed_entity_state : Twins → Text → EntityRef → EmbeddedState
unfolding embed_row load_entity
embed_entity_state t tenant r =
    if t.entity_answered then embed_row tenant r (load_entity t r.type r.id) else bare r

-- The keys of the neighbours of the immediate relations.
unfoldable pub immediate_keys : EntityRef → List Projection → List Text
unfolding relation_neighbor node_key
immediate_keys root [] = []
immediate_keys root (p ∷ rest) =
    let keys = immediate_keys root rest in
    elim (relation_neighbor p root) [ none ↦ keys | some r ↦ node_key r ∷ keys ]

-- An immediate relation, annotated.
unfoldable pub annotate : Twins → Text → EntityRef → Projection → Projection
unfolding relation_neighbor embed_entity_state
annotate t tenant root p = elim (relation_neighbor p root) [
  | none ↦ record p { depth = 1 }
  | some r ↦ record p { depth = 1; state = some (embed_entity_state t tenant r) }
]

-- The depth of an entity, the requested one if it has no label.
unfoldable pub depth_label : Dict ℕ → ℕ → Text → ℕ
unfolding get
depth_label depths depth key = elim (get depths key) [
  | none ↦ depth
  | some d ↦ if d == 0 then depth else d
]

unfoldable pub reached_projection : Twins → Text → EntityRef → ℕ → EntityRef → Projection
unfolding thing_id embed_entity_state
reached_projection t tenant root d n = record {
  type = [];
  group = codes "COMMON";
  direction = codes "OUT";
  source = thing_id tenant root;
  target = thing_id tenant n;
  source_entity = root;
  target_entity = n;
  depth = d;
  state = some (embed_entity_state t tenant n);
}

-- The entities that are neither the root nor immediate.
unfoldable pub transitive :
    Twins → Text → EntityRef → ℕ → Dict ℕ → List Text → List EntityRef → List Projection
unfolding node_key text_eq contains reached_projection depth_label
transitive t tenant root depth depths immediate [] = []
transitive t tenant root depth depths immediate (n ∷ nodes) =
    let rest = transitive t tenant root depth depths immediate nodes in
    if text_eq (node_key n) (node_key root) || contains immediate (node_key n)
    then rest
    else reached_projection t tenant root (depth_label depths depth (node_key n)) n ∷ rest

-- `expandErrorStatus`
unfoldable pub expand_error_status : ExpandError → ℕ
expand_error_status traversal_budget = 422
expand_error_status _ = 500

-- The outside of a request: whether the pool is there, whether the recursive query succeeds, and of
-- which entities the query of the neighbours does.
pub record Database : Type 0 where
  pub ready : Bool
  pub executed : Bool
  pub answers : EntityRef → Bool
  pub before : Text → Text → Bool
  pub catalog : Catalog
  pub twins : Twins
  pub graph : Graph

unfoldable pub neighbors_query : Database → Text → EntityRef → Option (List EntityRef)
unfolding neighbors_tenant
neighbors_query db tenant r =
    if db.answers r
    then some (neighbors_tenant db.catalog tenant r (codes "FROM") [] db.graph)
    else none

unfoldable pub expanded_relations :
    Database
    → Text
    → EntityRef
    → List Projection
    → ℕ
    → Result ExpandError (List EntityRef)
    → Result ℕ (List Projection)
unfolding expand_error_status annotate transitive expand_depths neighbors_query immediate_keys
expanded_relations db tenant root relations depth (err x) = err (expand_error_status x)
expanded_relations db tenant root relations depth (ok nodes) = ok (
    map (annotate db.twins tenant root) relations
    ++ transitive db.twins tenant root depth (expand_depths (neighbors_query db tenant) root depth)
        (immediate_keys root relations) nodes)

unfoldable pub expand_to :
    Database → Text → EntityRef → List Projection → Result SpecError ℕ → Result ℕ (List Projection)
unfolding expanded_relations expand_with_cte
expand_to db tenant root relations (err x) = err 400
expand_to db tenant root relations (ok depth) =
    if not db.ready
    then err 503
    else expanded_relations db tenant root relations depth (
        expand_with_cte db.before db.executed db.catalog tenant root (codes "FROM") [] depth
          expand_max_nodes db.graph)

-- `expandRelations` for a row of the entity `root` and of the tenant `row_tenant`: the relations, or
-- the status of the error.
unfoldable pub expand_relations :
    Database → Text → Text → EntityRef → Text → List Projection → Result ℕ (List Projection)
unfolding expand_to parse_expand_spec text_eq
expand_relations db tenant row_tenant root raw relations =
    if text_eq raw []
    then ok relations
    else expand_to db (if text_eq tenant [] then row_tenant else tenant) root relations
        (parse_expand_spec raw)
