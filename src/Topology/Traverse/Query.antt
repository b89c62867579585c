-- ===== src/Topology/Traverse/Query.antt =====
-- The recursive query of `ExpandWithCTE` in flow-core/internal/topology/topology.go. The order of
-- texts in the database is its collation, the parameter `before`.
use thingsflow.Base.{
  ℕ, zero, suc, ◌+◌, List, [], ◌∷◌, ◌++◌, map, Bool, not, ◌&&◌, ltb, leb, ◌==◌, length, take,
  if◌then◌else◌,
}
use thingsflow.Base.Text.{Text, codes, text_eq, contains}
use thingsflow.Base.Result.{Result, ok, err}
use thingsflow.Topology.{EntityRef, Catalog, Graph, ref_eq, normalize_ref}
use thingsflow.Topology.Traverse.{Link, distinct_on, edge_source, select}

-- A row of the recursive query.
pub record ExpandRow : Type 0 where
  pub node : EntityRef
  pub depth : ℕ
  pub path : List Text

-- The type and the identifier, as they stand in the path.
unfoldable pub path_key : EntityRef → Text
path_key r = r.type ++ (codes ":" ++ r.id)

unfoldable pub visit : ExpandRow → EntityRef → ExpandRow
unfolding path_key
visit r nb = record { node = nb; depth = r.depth + 1; path = r.path ++ path_key nb ∷ [] }

-- The rows that one row joins.
unfoldable pub expand_row : List Link → ℕ → ExpandRow → List ExpandRow
unfolding select ref_eq visit path_key contains
expand_row union max_depth r =
    select
      (λ l.
        ref_eq l.node r.node && (ltb r.depth max_depth && not (contains r.path (path_key l.nb))))
      (λ l. visit r l.nb) union

-- The recursive term, on the rows of the round before.
unfoldable pub expand_step : List Link → ℕ → List ExpandRow → List ExpandRow
unfolding expand_row
expand_step union max_depth [] = []
expand_step union max_depth (r ∷ rows) =
    expand_row union max_depth r ++ expand_step union max_depth rows

-- `WITH RECURSIVE`: the rows of all rounds.
unfoldable pub expand_rounds : List Link → ℕ → ℕ → List ExpandRow → List ExpandRow
unfolding expand_step
expand_rounds union max_depth zero rows = []
expand_rounds union max_depth (suc rounds) rows =
    rows ++ expand_rounds union max_depth rounds (expand_step union max_depth rows)

unfoldable pub first_row : EntityRef → ExpandRow
unfolding path_key
first_row root = record { node = root; depth = 0; path = path_key root ∷ [] }

-- The rounds, one more than the depth.
unfoldable pub expand_all : List Link → ℕ → EntityRef → List ExpandRow
unfolding expand_rounds first_row
expand_all union max_depth root =
    expand_rounds union max_depth (suc max_depth) (first_row root ∷ [])

module _ {R : Type 0} (leq : R → R → Bool) where
  unfoldable pub insert_row : R → List R → List R
  insert_row a [] = a ∷ []
  insert_row a (x ∷ xs) = if leq a x then a ∷ x ∷ xs else x ∷ insert_row a xs

  -- `ORDER BY`
  unfoldable pub order_by : List R → List R
  unfolding insert_row
  order_by [] = []
  order_by (x ∷ xs) = insert_row x (order_by xs)

module _ (before : Text → Text → Bool) where
  unfoldable pub node_leq : EntityRef → EntityRef → Bool
  unfolding text_eq
  node_leq a b = if text_eq a.type b.type then before a.id b.id else before a.type b.type

  -- `ORDER BY node_type, node_id, depth`
  unfoldable pub by_node : ExpandRow → ExpandRow → Bool
  unfolding ref_eq node_leq
  by_node a b = if ref_eq a.node b.node then leb a.depth b.depth else node_leq a.node b.node

  -- `ORDER BY depth, node_type, node_id`
  unfoldable pub by_depth : ExpandRow → ExpandRow → Bool
  unfolding node_leq
  by_depth a b = if a.depth == b.depth then node_leq a.node b.node else ltb a.depth b.depth

  -- The query but for its limit.
  unfoldable pub expand_query : List Link → ℕ → EntityRef → List ExpandRow
  unfolding order_by by_depth by_node distinct_on ref_eq expand_all
  expand_query union max_depth root = order_by by_depth (
      distinct_on (λ a b. ref_eq a.node b.node)
        (order_by by_node (expand_all union max_depth root)))

pub data ExpandError : Type 0 where
  depth_below_one : ExpandError
  nodes_below_one : ExpandError
  query_failed : ExpandError
  traversal_budget : ExpandError

unfoldable pub within_budget : ℕ → List EntityRef → Result ExpandError (List EntityRef)
within_budget max_nodes out = if ltb max_nodes (length out) then err traversal_budget else ok out

-- `ExpandWithCTE`; `executed` tells whether the query succeeds.
unfoldable pub expand_with_cte :
    (Text → Text → Bool)
    → Bool
    → Catalog
    → Text
    → EntityRef
    → Text
    → List Text
    → ℕ
    → ℕ
    → Graph
    → Result ExpandError (List EntityRef)
unfolding normalize_ref edge_source expand_query within_budget
expand_with_cte before executed c tenant root direction types max_depth max_nodes g =
    if ltb max_depth 1
    then err depth_below_one
    else if ltb max_nodes 1
    then err nodes_below_one
    else if not executed
    then err query_failed
    else within_budget max_nodes (
        map (λ r. normalize_ref r.node)
          (take (suc max_nodes) (
            expand_query before (edge_source c tenant direction types g) max_depth
              (normalize_ref root))))
