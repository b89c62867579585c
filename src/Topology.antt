-- ===== src/Topology.antt =====
-- The graph of a tenant's entities, flow-core/internal/topology/topology.go: the edges of the table
-- `topology_edge`, each mirrored into the older table `relation`, and the walks over both. The state
-- is the rows of the tables. Every statement of a transaction is on the rows that the code names; a
-- transaction that fails leaves them as they were.
pub mod Model
pub mod Store
pub mod Traverse
pub mod Expand
mod Tests
use thingsflow.Base.{
  ℕ, List, [], ◌∷◌, Bool, true, false, ◌&&◌, ◌||◌, Option, none, some, if◌then◌else◌,
}
use thingsflow.Base.Text.{Text, codes, text_eq, trim_space, to_upper}
use thingsflow.Base.Json.{Json, object, end}
use thingsflow.TwinModel.Enforcement.{Registration, ModelRow}

pub record EntityRef : Type 0 where
  pub type : Text
  pub id : Text

-- `Edge.Metadata`: absent, no JSON, or a value.
pub data Metadata : Type 0 where
  absent : Metadata
  malformed : Metadata
  given : Json → Metadata

-- An edge to save, and a row of `topology_edge`.
pub record Edge : Type 0 where
  pub tenant_id : Text
  pub from : EntityRef
  pub to : EntityRef
  pub relation_type : Text
  pub relation_type_group : Text
  pub direction : Text
  pub metadata : Metadata
  pub version : ℕ

pub record EdgeFilter : Type 0 where
  pub tenant_id : Text
  pub from : EntityRef
  pub to : EntityRef
  pub relation_type : Text
  pub relation_type_group : Text

-- A row of `relation`, which has no tenant.
pub record Relation : Type 0 where
  pub from : EntityRef
  pub to : EntityRef
  pub relation_type : Text
  pub relation_type_group : Text
  pub additional_info : Metadata
  pub version : ℕ

-- A row of `topology_relation_type`.
pub record RelationType : Type 0 where
  pub name : Text
  pub allowed_from_types : List Text
  pub allowed_to_types : List Text

-- A row of one of the tables of entities, with its tenant.
pub record Owned : Type 0 where
  pub entity : EntityRef
  pub tenant_id : Text

-- The tables that the edges are checked against, and the setting of the enforcement.
pub record Catalog : Type 0 where
  pub relation_types : List RelationType
  pub entities : List Owned
  pub registry : List Registration
  pub models : List ModelRow
  pub relation_enforce : Text

-- The tables that are written.
pub record Graph : Type 0 where
  pub edges : List Edge
  pub relations : List Relation

pub data TopologyError : Type 0 where
  cross_tenant : TopologyError
  invalid_relation_type : TopologyError
  unknown_entity : TopologyError
  not_allowed_by_model : TopologyError
  invalid_metadata : TopologyError
  broken_pin : TopologyError
  not_executed : TopologyError

unfoldable pub ref_eq : EntityRef → EntityRef → Bool
unfolding text_eq
ref_eq a b = text_eq a.type b.type && text_eq a.id b.id

-- `normalizeEntityType`
unfoldable pub normalize_entity_type : Text → Text
unfolding trim_space to_upper
normalize_entity_type v = to_upper (trim_space v)

unfoldable pub normalize_ref : EntityRef → EntityRef
unfolding normalize_entity_type
normalize_ref r = record r { type = normalize_entity_type r.type }

unfoldable pub or_default : Text → Text → Text
unfolding text_eq
or_default t other = if text_eq t [] then other else t

abbrev pub directed : Text
directed = codes "DIRECTED"

abbrev pub bidirectional : Text
bidirectional = codes "BIDIRECTIONAL"

abbrev pub common : Text
common = codes "COMMON"

-- `normalizeEdge`
unfoldable pub normalize_edge : Edge → Edge
unfolding normalize_ref or_default trim_space to_upper
normalize_edge e = record {
  tenant_id = e.tenant_id;
  from = normalize_ref e.from;
  to = normalize_ref e.to;
  relation_type = trim_space e.relation_type;
  relation_type_group = or_default (to_upper (trim_space e.relation_type_group)) common;
  direction = or_default (to_upper (trim_space e.direction)) directed;
  metadata = e.metadata;
  version = e.version;
}

-- `normalizeFilter`
unfoldable pub normalize_filter : EdgeFilter → EdgeFilter
unfolding normalize_ref or_default trim_space to_upper
normalize_filter f = record {
  tenant_id = f.tenant_id;
  from = normalize_ref f.from;
  to = normalize_ref f.to;
  relation_type = trim_space f.relation_type;
  relation_type_group = or_default (to_upper (trim_space f.relation_type_group)) common;
}

unfoldable pub find_owner : EntityRef → List Owned → Option Text
unfolding ref_eq
find_owner r [] = none
find_owner r (o ∷ rest) = if ref_eq o.entity r then some o.tenant_id else find_owner r rest

-- The types that have a table.
unfoldable pub has_table : Text → Bool
unfolding text_eq
has_table t =
    text_eq t (codes "ASSET")
    || (text_eq t (codes "DEVICE")
        || (text_eq t (codes "CUSTOMER")
            || (text_eq t (codes "ENTITY_VIEW")
                || (text_eq t (codes "DASHBOARD")
                    || (text_eq t (codes "DEVICE_PROFILE") || text_eq t (codes "ASSET_PROFILE"))))))

-- `resolveEntityTenant`; nothing where it returns `ErrUnknownEntity`.
unfoldable pub resolve_entity_tenant : List Owned → EntityRef → Option Text
unfolding normalize_ref has_table find_owner text_eq
resolve_entity_tenant entities ref =
    let r = normalize_ref ref in
    if text_eq r.type (codes "TENANT")
    then some r.id
    else if has_table r.type
    then find_owner r entities
    else none
