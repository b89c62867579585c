-- ===== src/Topology/Tests.antt =====
-- Runs of the graph of entities, and the witnesses of its theorems.
use thingsflow.Base.{
  List, [], ◌∷◌, ◌≡◌, ◌≢◌, ◌⊎◌, ◌↔◌, refl, sym, subst, inl, inr, Bool, true, false, none, some, In,
  All-In, NoDup, map, length, ltb, arith, if◌then◌else◌,
}
use thingsflow.Base.Text.{Text, codes, text_eq, text_eq_iff, contains}
use thingsflow.Base.Sort.{text_leb}
use thingsflow.Base.Result.{ok, err}
use thingsflow.Topology.{
  EntityRef, Edge, EdgeFilter, Relation, Catalog, Graph, absent, TopologyError, directed,
  bidirectional, common, resolve_entity_tenant, normalize_ref, normalize_edge, normalize_filter,
}
use thingsflow.Topology.Model.{is_bidirectional}
use thingsflow.Topology.Store.{
  exists_where, mirrors, save_edge, delete_edge, erase_edge, write_edge,
}
use thingsflow.Topology.Store.Mirrored.{HasMirror}
use thingsflow.Topology.Store.Invariant.{
  IsSound, save_edge-IsSound, save_edge-foreign, delete_edge-IsSound,
}
use thingsflow.Topology.Store.Foreign.{erase_edge-foreign}
use thingsflow.Topology.Traverse.{Link, edge_source, neighbors_of, union_from}
use thingsflow.Topology.Traverse.Query.{
  expand_with_cte, expand_rounds, expand_all, first_row, traversal_budget,
}
use thingsflow.Topology.Traverse.Walk.{Within}
use thingsflow.Topology.Traverse.Reach.{Plain}
use thingsflow.Topology.Traverse.Enough.{expand_all-ends}
use thingsflow.Topology.Traverse.Expanded.{expand_with_cte_iff}
use thingsflow.Topology.Traverse.Tenant.{expand_with_cte-owned}
use thingsflow.Topology.Traverse.Visible.{LinkFrom, LinkTo, write_edge-visible}
use thingsflow.Topology.Traverse.Gone.{erase_edge-invisible}

abbrev asset : Text → EntityRef
asset id = record { type = codes "ASSET"; id = id }

abbrev plant : EntityRef
plant = asset (codes "p")

abbrev line : EntityRef
line = asset (codes "l")

abbrev tenant : Text
tenant = codes "t"

abbrev other_tenant : Text
other_tenant = codes "u"

abbrev contains_type : Text
contains_type = codes "Contains"

abbrev catalog : Catalog
catalog = record {
  relation_types =
      record {
        name = contains_type;
        allowed_from_types = codes "ASSET" ∷ [];
        allowed_to_types = codes "ASSET" ∷ [];
      }
      ∷ [];
  entities =
      record { entity = plant; tenant_id = tenant }
      ∷ record { entity = line; tenant_id = tenant }
      ∷ [];
  registry = [];
  models = [];
  relation_enforce = [];
}

abbrev edge_of : Text → Text → Edge
edge_of owner direction = record {
  tenant_id = owner;
  from = plant;
  to = line;
  relation_type = contains_type;
  relation_type_group = common;
  direction = direction;
  metadata = absent;
  version = 1;
}

abbrev mirror : Relation
mirror = record {
  from = plant;
  to = line;
  relation_type = contains_type;
  relation_type_group = common;
  additional_info = absent;
  version = 1;
}

abbrev filter_of : Text → EdgeFilter
filter_of owner = record {
  tenant_id = owner;
  from = plant;
  to = line;
  relation_type = contains_type;
  relation_type_group = common;
}

abbrev empty_graph : Graph
empty_graph = record { edges = []; relations = [] }

abbrev plant_graph : Graph
plant_graph = record { edges = edge_of tenant directed ∷ []; relations = mirror ∷ [] }

apart : (a b : Text) → text_eq a b ≡ false → a ≢ b
apart a b h = λ e. cc ((text_eq_iff a b).1 e, h)

saved : (save_edge catalog true (edge_of tenant directed) empty_graph).0 ≡ ok tt
unfolding save_edge
saved = refl

plant_graph-IsSound : IsSound catalog plant_graph
plant_graph-IsSound = (
  (λ r i. elim i [
    | inl e ↦
        subst
          (λ x.
            (resolve_entity_tenant catalog.entities x.from ≡ some x.tenant_id)
            × (resolve_entity_tenant catalog.entities x.to ≡ some x.tenant_id))
          (sym e) (unfold resolve_entity_tenant in (refl, refl))
    | inr x ↦ elim x [ ]
  ]),
  (
    (λ r i. elim i [
      | inl e ↦
          subst
            (λ x.
              HasMirror x.from x.to x plant_graph.relations
              × (is_bidirectional x ≡ true → HasMirror x.to x.from x plant_graph.relations))
            (sym e) (unfold exists_where mirrors is_bidirectional in (refl, λ q. ground (arith, q)))
      | inr x ↦ elim x [ ]
    ]),
    ((λ both. unfold exists_where in refl), tt),
  ),
)

save_edge-IsSound_example :
    IsSound catalog (save_edge catalog true (edge_of tenant bidirectional) plant_graph).1
save_edge-IsSound_example =
    save_edge-IsSound catalog true (edge_of tenant bidirectional) plant_graph plant_graph-IsSound

save_edge-foreign_example :
    (x : TopologyError) × (save_edge catalog true (edge_of other_tenant directed) plant_graph
      ≡ (err x, plant_graph))
save_edge-foreign_example =
    save_edge-foreign catalog true (edge_of other_tenant directed) plant_graph (
      inl (λ q.
        apart tenant other_tenant (unfold text_eq in refl)
          (some-injective (unfold resolve_entity_tenant normalize_edge in q))))
  where
    some-injective : some tenant ≡ some other_tenant → tenant ≡ other_tenant
    some-injective e = λ i. elim (e i) [ none ↦ tenant | some t ↦ t ]

delete_edge-IsSound_example : IsSound catalog (delete_edge true (filter_of tenant) plant_graph).1
delete_edge-IsSound_example =
    delete_edge-IsSound catalog true (filter_of tenant) plant_graph
      (unfold resolve_entity_tenant normalize_filter in refl) plant_graph-IsSound

erase_edge-foreign_example :
    In (edge_of tenant directed) (erase_edge (filter_of other_tenant) plant_graph).edges
    × (¬ HasMirror plant line
        (edge_of tenant directed)
        (erase_edge (filter_of other_tenant) plant_graph).relations)
erase_edge-foreign_example =
    erase_edge-foreign (filter_of other_tenant) plant_graph (edge_of tenant directed) (inl refl)
      (apart tenant other_tenant (unfold text_eq in refl)) refl refl refl refl

abbrev alphabetical : Text → Text → Bool
alphabetical = text_leb

abbrev ring : Graph
ring = record { edges = edge_of tenant bidirectional ∷ []; relations = [] }

-- The other end of the ring is found once, at depth one.
expanded :
    expand_with_cte alphabetical true catalog tenant plant (codes "from ") [] 3 5 ring
    ≡ ok (plant ∷ line ∷ [])
unfolding expand_with_cte text_leb
expanded = refl

over_budget :
    expand_with_cte alphabetical true catalog tenant plant [] [] 3 1 ring ≡ err traversal_budget
unfolding expand_with_cte text_leb
over_budget = refl

Plain-asset : (id : Text) → Plain (asset id)
Plain-asset id = (
  (λ e. omega (arith, e)),
  (
    (λ e. omega (arith, e)),
    ((λ e. omega (arith, e)), ((λ e. omega (arith, e)), ((λ e. omega (arith, e)), tt))),
  ),
)

ring-Plain : (l : Link) → In l (edge_source catalog tenant [] [] ring) → Plain l.nb
unfolding edge_source
ring-Plain l i =
    All-In (λ x. Plain x.nb) (edge_source catalog tenant [] [] ring)
      (Plain-asset (codes "l"), (Plain-asset (codes "p"), tt)) i

expand_with_cte_iff_example :
    (found : List EntityRef) × NoDup found
    × ((n : EntityRef)
        → In n found
          ↔ Within (neighbors_of (edge_source catalog tenant [] [] ring)) (normalize_ref plant) 3 n)
    × (expand_with_cte alphabetical true catalog tenant plant [] [] 3 1 ring
        ≡ (if ltb 1 (length found) then err traversal_budget else ok (map normalize_ref found)))
expand_with_cte_iff_example =
    expand_with_cte_iff alphabetical catalog tenant plant [] [] 3 1 ring (omega arith) (omega arith)
      (unfold normalize_ref in Plain-asset (codes "p")) ring-Plain

expand_all-ends_example :
    expand_rounds (edge_source catalog tenant [] [] ring) 2 40 (first_row plant ∷ [])
    ≡ expand_all (edge_source catalog tenant [] [] ring) 2 plant
expand_all-ends_example =
    expand_all-ends (edge_source catalog tenant [] [] ring) 2 40 plant (omega arith)

expand_with_cte-owned_example :
    (line ≡ normalize_ref (normalize_ref plant))
    ⊎ (resolve_entity_tenant catalog.entities line ≡ some tenant)
expand_with_cte-owned_example =
    expand_with_cte-owned alphabetical true catalog tenant plant [] [] 3 5 plant_graph
      (plant ∷ line ∷ []) plant_graph-IsSound.0 (unfold expand_with_cte text_leb in refl) line
      (inr (inl refl))

write_edge-visible_example :
    LinkFrom catalog
      (contains_type ∷ [])
      (edge_of tenant bidirectional)
      (write_edge (edge_of tenant bidirectional) empty_graph)
      plant
      line
    × LinkTo catalog
        (contains_type ∷ [])
        (edge_of tenant bidirectional)
        (write_edge (edge_of tenant bidirectional) empty_graph)
        line
        plant
    × (bidirectional ≡ bidirectional
        → LinkFrom catalog
            (contains_type ∷ [])
            (edge_of tenant bidirectional)
            (write_edge (edge_of tenant bidirectional) empty_graph)
            line
            plant)
write_edge-visible_example =
    write_edge-visible catalog (contains_type ∷ []) (edge_of tenant bidirectional) empty_graph refl
      (unfold contains text_eq in refl) (inr refl)

erase_edge-invisible_example :
    ¬ In
      (record { node = plant; nb = line })
      (union_from catalog tenant (contains_type ∷ []) (erase_edge (filter_of tenant) plant_graph))
erase_edge-invisible_example = erase_edge-invisible catalog (filter_of tenant) plant_graph refl
