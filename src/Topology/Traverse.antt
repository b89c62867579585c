-- ===== src/Topology/Traverse.antt =====
-- The walks over the graph in flow-core/internal/topology/topology.go: the neighbours of one entity,
-- and in Query those within a depth. The identifiers are compared as texts.
pub mod Walk
pub mod Levels
pub mod Rows
pub mod Enough
pub mod Reach
pub mod Expanded
pub mod Visible
pub mod Tenant
pub mod Gone
pub mod Query
use thingsflow.Base.{
  ℕ, zero, suc, ◌+◌, List, [], ◌∷◌, ◌++◌, map, Bool, true, false, not, ◌&&◌, ◌||◌, Option, none,
  some, ltb, leb, ◌==◌, length, take, if◌then◌else◌,
}
use thingsflow.Base.Text.{Text, codes, text_eq, contains, to_upper, trim_space}
use thingsflow.Base.Result.{Result, ok, err}
use thingsflow.Topology.{
  EntityRef, Edge, Relation, Owned, Catalog, Graph, ref_eq, normalize_ref, or_default, has_table,
  find_owner, directed, common,
}
use thingsflow.Topology.Model.{is_bidirectional}
use thingsflow.Topology.Store.{exists_where, delete_where, in_group, leads}

-- `SELECT ... FROM ... WHERE`
unfoldable pub select : {R S : Type 0} → (R → Bool) → (R → S) → List R → List S
select p columns [] = []
select p columns (r ∷ rows) =
    let rest = select p columns rows in if p r then columns r ∷ rest else rest

-- A row of the union: the entity the walk stands on, and a neighbour.
pub record Link : Type 0 where
  pub node : EntityRef
  pub nb : EntityRef

unfoldable pub along : Edge → Link
along e = record { node = e.from; nb = e.to }

unfoldable pub against : Edge → Link
against e = record { node = e.to; nb = e.from }

unfoldable pub legacy_along : Relation → Link
legacy_along r = record { node = r.from; nb = r.to }

unfoldable pub legacy_against : Relation → Link
legacy_against r = record { node = r.to; nb = r.from }

-- The edge is of the tenant, the group COMMON and one of the types.
unfoldable pub selected : Text → List Text → Edge → Bool
unfolding text_eq contains
selected tenant types e =
    text_eq e.tenant_id tenant
    && (text_eq e.relation_type_group common && contains types e.relation_type)

unfoldable pub is_directed : Edge → Bool
unfolding text_eq
is_directed e = text_eq e.direction directed

-- The tenant of an end of a row of `relation`, by the `COALESCE` over the tables.
unfoldable pub legacy_tenant : List Owned → EntityRef → Option Text
unfolding text_eq has_table find_owner
legacy_tenant entities r =
    if text_eq r.type (codes "TENANT")
    then some r.id
    else if has_table r.type
    then find_owner r entities
    else none

unfoldable pub is_tenant : Text → Option Text → Bool
unfolding text_eq
is_tenant tenant none = false
is_tenant tenant (some t) = text_eq t tenant

-- The row of `relation` is of the group COMMON and one of the types, `nb` is of the tenant, and no
-- edge of the tenant is the same.
unfoldable pub legacy_selected :
    Catalog → Text → List Text → List Edge → EntityRef → Relation → Bool
unfolding text_eq contains is_tenant legacy_tenant exists_where in_group leads
legacy_selected c tenant types edges nb r =
    text_eq r.relation_type_group common
    && (contains types r.relation_type
        && (is_tenant tenant (legacy_tenant c.entities nb)
            && not (
                exists_where
                  (λ e.
                    in_group tenant r.relation_type_group r.relation_type e && leads r.from r.to e)
                  edges)))

-- `neighborUnionFROM`
unfoldable pub union_from : Catalog → Text → List Text → Graph → List Link
unfolding select selected is_directed is_bidirectional along against legacy_selected legacy_along
union_from c tenant types g =
    select (λ e. selected tenant types e && is_directed e) along g.edges
    ++ (select (λ e. selected tenant types e && is_bidirectional e) along g.edges
        ++ (select (λ e. selected tenant types e && is_bidirectional e) against g.edges
            ++ select (λ r. legacy_selected c tenant types g.edges r.to r) legacy_along
                g.relations))

-- `neighborUnionTO`
unfoldable pub union_to : Catalog → Text → List Text → Graph → List Link
unfolding select selected is_directed is_bidirectional along against legacy_selected legacy_against
union_to c tenant types g =
    select (λ e. selected tenant types e && is_directed e) against g.edges
    ++ (select (λ e. selected tenant types e && is_bidirectional e) along g.edges
        ++ (select (λ e. selected tenant types e && is_bidirectional e) against g.edges
            ++ select (λ r. legacy_selected c tenant types g.edges r.from r) legacy_against
                g.relations))

-- `neighborUnionSQL`
unfoldable pub neighbor_union : Text → Catalog → Text → List Text → Graph → List Link
unfolding union_from union_to text_eq
neighbor_union direction c tenant types g =
    if text_eq direction (codes "TO")
    then union_to c tenant types g
    else union_from c tenant types g

-- The neighbours of an entity in the union.
unfoldable pub neighbors_of : List Link → EntityRef → List EntityRef
unfolding select ref_eq
neighbors_of union node = select (λ l. ref_eq l.node node) (λ l. l.nb) union

-- `SELECT DISTINCT`, and `DISTINCT ON`, which keeps the first row of several that are the same.
unfoldable pub distinct_on : {R : Type 0} → (R → R → Bool) → List R → List R
unfolding delete_where
distinct_on same [] = []
distinct_on same (r ∷ rows) = r ∷ delete_where (same r) (distinct_on same rows)

unfoldable pub direction_of : Text → Text
unfolding or_default to_upper trim_space
direction_of direction = or_default (to_upper (trim_space direction)) (codes "FROM")

unfoldable pub types_of : List Text → List Text
types_of [] = codes "Contains" ∷ []
types_of (t ∷ types) = t ∷ types

-- The union as both walks build it of their arguments.
unfoldable pub edge_source : Catalog → Text → Text → List Text → Graph → List Link
unfolding neighbor_union direction_of types_of
edge_source c tenant direction types g =
    neighbor_union (direction_of direction) c tenant (types_of types) g

-- `NeighborsTenant`, where its query succeeds.
unfoldable pub neighbors_tenant :
    Catalog → Text → EntityRef → Text → List Text → Graph → List EntityRef
unfolding normalize_ref distinct_on ref_eq neighbors_of edge_source
neighbors_tenant c tenant root direction types g = map normalize_ref (
    distinct_on ref_eq (neighbors_of (edge_source c tenant direction types g) (normalize_ref root)))
