-- ===== src/Topology/Store.antt =====
-- The writes of edges in flow-core/internal/topology/topology.go.
pub mod Rows
pub mod Saved
pub mod Mirrored
pub mod Deleted
pub mod Foreign
pub mod Paired
pub mod Invariant
use thingsflow.Base.{
  ℕ, ◌+◌, List, [], ◌∷◌, ◌++◌, Bool, true, false, not, ◌&&◌, ◌||◌, Option, none, some,
  if◌then◌else◌,
}
use thingsflow.Base.Text.{Text, codes, text_eq}
use thingsflow.Base.Json.{object, end}
use thingsflow.Base.Result.{Result, ok, err, ◌>>=◌, ◌>>◌, guard}
use thingsflow.Topology.{
  EntityRef, Edge, EdgeFilter, Metadata, absent, malformed, given, Relation, Owned, Catalog, Graph,
  TopologyError, cross_tenant, invalid_relation_type, unknown_entity, invalid_metadata,
  not_executed, ref_eq, normalize_edge, normalize_filter, resolve_entity_tenant, directed,
  bidirectional,
}
use thingsflow.Topology.Model.{validate_relation_type, enforce_model_relation, is_bidirectional}

-- `INSERT ... ON CONFLICT ... DO UPDATE`: the row with the key is updated, or the new one added.
unfoldable pub upsert : {R : Type 0} → (R → Bool) → (R → R) → R → List R → List R
upsert has_key touch new [] = new ∷ []
upsert has_key touch new (r ∷ rows) =
    if has_key r then touch r ∷ rows else r ∷ upsert has_key touch new rows

-- `UPDATE ... WHERE`
unfoldable pub update_where : {R : Type 0} → (R → Bool) → (R → R) → List R → List R
update_where p touch [] = []
update_where p touch (r ∷ rows) =
    let rest = update_where p touch rows in if p r then touch r ∷ rest else r ∷ rest

-- `DELETE ... WHERE`
unfoldable pub delete_where : {R : Type 0} → (R → Bool) → List R → List R
delete_where p [] = []
delete_where p (r ∷ rows) = let rest = delete_where p rows in if p r then rest else r ∷ rest

-- `EXISTS (SELECT ... WHERE)`
unfoldable pub exists_where : {R : Type 0} → (R → Bool) → List R → Bool
exists_where p [] = false
exists_where p (r ∷ rows) = p r || exists_where p rows

-- The first row of a query.
unfoldable pub find_where : {R : Type 0} → (R → Bool) → List R → Option R
find_where p [] = none
find_where p (r ∷ rows) = if p r then some r else find_where p rows

-- The row is of the tenant, the group and the type.
unfoldable pub in_group : Text → Text → Text → Edge → Bool
unfolding text_eq
in_group tenant group relation_type r =
    text_eq r.tenant_id tenant
    && (text_eq r.relation_type_group group && text_eq r.relation_type relation_type)

unfoldable pub leads : EntityRef → EntityRef → Edge → Bool
unfolding ref_eq
leads from to r = ref_eq r.from from && ref_eq r.to to

-- The primary key of `topology_edge`.
unfoldable pub same_key : Edge → Edge → Bool
unfolding in_group leads text_eq
same_key e r =
    in_group e.tenant_id e.relation_type_group e.relation_type r
    && (leads e.from e.to r && text_eq r.direction e.direction)

-- The row is a bidirectional edge between the same ends, in either orientation.
unfoldable pub same_pair : Edge → Edge → Bool
unfolding in_group leads is_bidirectional
same_pair e r =
    in_group e.tenant_id e.relation_type_group e.relation_type r
    && (is_bidirectional r && (leads e.from e.to r || leads e.to e.from r))

unfoldable pub touch_edge : Edge → Edge → Edge
touch_edge e r = record r { metadata = e.metadata; version = r.version + 1 }

unfoldable pub insert_edge : Edge → List Edge → List Edge
unfolding upsert same_key touch_edge
insert_edge e rows = upsert (same_key e) (touch_edge e) (record e { version = 1 }) rows

unfoldable pub update_pair : Edge → List Edge → Option Edge → List Edge
unfolding insert_edge update_where same_key touch_edge
update_pair e rows none = insert_edge e rows
update_pair e rows (some found) = update_where (same_key found) (touch_edge e) rows

-- `saveTopologyEdge`
unfoldable pub save_topology_edge : Edge → List Edge → List Edge
unfolding update_pair find_where same_pair insert_edge is_bidirectional
save_topology_edge e rows =
    if is_bidirectional e
    then update_pair e rows (find_where (same_pair e) rows)
    else insert_edge e rows

-- The key of `relation`.
unfoldable pub mirrors : EntityRef → EntityRef → Text → Text → Relation → Bool
unfolding ref_eq text_eq
mirrors from to group relation_type r =
    ref_eq r.from from
    && (ref_eq r.to to
        && (text_eq r.relation_type_group group && text_eq r.relation_type relation_type))

-- `saveLegacyMirror`
unfoldable pub save_legacy_mirror : EntityRef → EntityRef → Edge → List Relation → List Relation
unfolding upsert mirrors
save_legacy_mirror from to e rows =
    upsert (mirrors from to e.relation_type_group e.relation_type)
      (λ r. record r { additional_info = e.metadata; version = r.version + 1 })
      (record {
        from = from;
        to = to;
        relation_type = e.relation_type;
        relation_type_group = e.relation_type_group;
        additional_info = e.metadata;
        version = 1;
      })
      rows

-- The writes of `SaveEdge`.
unfoldable pub write_edge : Edge → Graph → Graph
unfolding save_topology_edge save_legacy_mirror is_bidirectional
write_edge e g = record {
  edges = save_topology_edge e g.edges;
  relations =
      let there = save_legacy_mirror e.from e.to e g.relations in
      if is_bidirectional e then save_legacy_mirror e.to e.from e there else there;
}

unfoldable pub materialize : Metadata → Metadata
materialize absent = given (object end)
materialize malformed = malformed
materialize (given j) = given j

unfoldable pub is_json : Metadata → Bool
is_json absent = false
is_json malformed = false
is_json (given j) = true

-- `resolveEntityTenant`, with its error.
unfoldable pub owner_of : Catalog → EntityRef → Result TopologyError Text
unfolding resolve_entity_tenant
owner_of c ref = elim (resolve_entity_tenant c.entities ref) [
  | none ↦ err unknown_entity
  | some tenant ↦ ok tenant
]

-- The normalized edge, its fields checked.
unfoldable pub check_fields : Edge → Result TopologyError Edge
unfolding materialize is_json text_eq
check_fields e = do
  guard (not (text_eq e.relation_type [] || (text_eq e.from.id [] || text_eq e.to.id [])))
      unknown_entity
  guard (text_eq e.direction directed || text_eq e.direction bidirectional) invalid_relation_type
  let e' : Edge = record e { metadata = materialize e.metadata }
  guard (is_json e'.metadata) invalid_metadata
  ok e'

-- The type of the relation must permit the ends, in both orders if the edge is bidirectional.
unfoldable pub check_types : Catalog → Edge → Result TopologyError (Unit {0})
unfolding is_bidirectional validate_relation_type
check_types c e = do
  validate_relation_type c e.relation_type e.from e.to
  if is_bidirectional e then validate_relation_type c e.relation_type e.to e.from else ok tt

unfoldable pub check_owners : Catalog → Edge → Result TopologyError (Unit {0})
unfolding owner_of text_eq
check_owners c e = do
  from ← owner_of c e.from
  to ← owner_of c e.to
  guard (text_eq from e.tenant_id && text_eq to e.tenant_id) cross_tenant

-- The edge as it is written, behind the checks of `SaveEdge`.
unfoldable pub check_edge : Catalog → Edge → Result TopologyError Edge
unfolding normalize_edge check_fields check_types check_owners enforce_model_relation
check_edge c raw = do
  e ← check_fields (normalize_edge raw)
  check_types c e
  check_owners c e
  enforce_model_relation c e
  ok e

unfoldable pub commit :
    Bool → Graph → Result TopologyError Edge → Result TopologyError (Unit {0}) × Graph
unfolding write_edge
commit executed g (err x) = (err x, g)
commit executed g (ok e) = if executed then (ok tt, write_edge e g) else (err not_executed, g)

-- `SaveEdge`; `executed` tells whether the statements and the commit succeed.
unfoldable pub save_edge : Catalog → Bool → Edge → Graph → Result TopologyError (Unit {0}) × Graph
unfolding check_edge commit
save_edge c executed e g = commit executed g (check_edge c e)

-- The rows that `DeleteEdge` deletes of `topology_edge`.
unfoldable pub deletes : EdgeFilter → Edge → Bool
unfolding in_group leads is_bidirectional
deletes f r =
    in_group f.tenant_id f.relation_type_group f.relation_type r
    && (leads f.from f.to r || (is_bidirectional r && leads f.to f.from r))

-- `removeLegacyMirrorIfUnused`
unfoldable pub remove_mirror_if_unused :
    Text → EntityRef → EntityRef → Text → Text → List Edge → List Relation → List Relation
unfolding exists_where in_group leads delete_where mirrors
remove_mirror_if_unused tenant from to group relation_type edges rows =
    if exists_where (λ r. in_group tenant group relation_type r && leads from to r) edges
    then rows
    else delete_where (mirrors from to group relation_type) rows

-- The statements of `DeleteEdge`, of a normalized filter.
unfoldable pub erase_edge : EdgeFilter → Graph → Graph
unfolding delete_where deletes exists_where is_bidirectional remove_mirror_if_unused
erase_edge f g =
    let edges = delete_where (deletes f) g.edges in
    let both = exists_where (λ r. deletes f r && is_bidirectional r) g.edges in
    let there =
      remove_mirror_if_unused f.tenant_id f.from f.to f.relation_type_group f.relation_type edges
        g.relations in
    record {
      edges = edges;
      relations =
          if both
          then remove_mirror_if_unused f.tenant_id f.to f.from f.relation_type_group f.relation_type
              edges there
          else there;
    }

-- `DeleteEdge`
unfoldable pub delete_edge : Bool → EdgeFilter → Graph → Result TopologyError (Unit {0}) × Graph
unfolding erase_edge normalize_filter
delete_edge executed f g =
    if executed then (ok tt, erase_edge (normalize_filter f) g) else (err not_executed, g)
