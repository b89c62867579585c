-- ===== src/Topology/Expand.antt =====
-- The option `?expand=relations(depth)` of a twin's route, flow-core/internal/twin/expand.go, over
-- the walks of Topology.Traverse: the parameter and the labels of the depths. Annotate has the
-- answer.
pub mod Noted
pub mod Shortest
pub mod Embedded
pub mod Spec
pub mod Answer
pub mod Agree
mod Tests
pub mod Annotate
use thingsflow.Base.{
  ℕ, zero, suc, ◌+◌, ◌^◌, List, [], ◌∷◌, ◌++◌, map, Bool, true, false, not, ◌&&◌, ◌||◌, Option,
  none, some, ltb, leb, ◌==◌, if◌then◌else◌,
}
use thingsflow.Base.Text.{Text, codes, text_eq, contains, to_upper, to_lower, trim_space}
use thingsflow.Base.Dict.{Dict, get, put}
use thingsflow.Base.Strconv.{read_digits}
use thingsflow.Base.Result.{Result, ok, err}
use thingsflow.Policy.Enforce.Handler.{Entity, Twins, load_entity}
use thingsflow.Topology.{EntityRef, Edge, Catalog, Graph, ref_eq}
use thingsflow.Topology.Model.{is_bidirectional}
use thingsflow.Topology.Traverse.{neighbors_tenant, select}
use thingsflow.Topology.Traverse.Query.{ExpandError, traversal_budget, expand_with_cte}

-- `DefaultExpandMaxDepth` and `DefaultExpandMaxNodes` of flow-core/internal/topology/topology.go.
abbrev pub expand_max_depth : ℕ
expand_max_depth = 10

abbrev pub expand_max_nodes : ℕ
expand_max_nodes = 5000

pub data SpecError : Type 0 where
  malformed_spec : SpecError
  malformed_depth : SpecError
  depth_too_small : SpecError
  depth_too_large : SpecError

-- The rest behind a prefix.
unfoldable pub strip_prefix : Text → Text → Option Text
strip_prefix [] s = some s
strip_prefix (c ∷ p) [] = none
strip_prefix (c ∷ p) (d ∷ s) = if c == d then strip_prefix p s else none

unfoldable pub is_digit : ℕ → Bool
is_digit c = leb 48 c && leb c 57

-- Digits in front of a closing parenthesis at the end.
unfoldable pub closed_digits : Text → Option Text
unfolding is_digit
closed_digits [] = none
closed_digits (c ∷ []) = if c == 41 then some [] else none
closed_digits (c ∷ d ∷ s) = elim (closed_digits (d ∷ s)) [
  | none ↦ none
  | some ds ↦ if is_digit c then some (c ∷ ds) else none
]

unfoldable pub not_empty : Option Text → Option Text
not_empty none = none
not_empty (some []) = none
not_empty (some (c ∷ s)) = some (c ∷ s)

-- `expandSpecRE`, the captured digits.
unfoldable pub match_spec : Text → Option Text
unfolding strip_prefix closed_digits not_empty
match_spec s = elim (strip_prefix (codes "relations(") s) [
  | none ↦ none
  | some rest ↦ not_empty (closed_digits rest)
]

unfoldable pub bound_depth : Option ℕ → Result SpecError ℕ
bound_depth none = err malformed_depth
bound_depth (some depth) =
    if not (ltb depth (2 ^ 63))
    then err malformed_depth
    else if ltb depth 1
    then err depth_too_small
    else if ltb expand_max_depth depth
    then err depth_too_large
    else ok depth

-- `parseExpandSpec`; `strconv.Atoi` fails on what exceeds an `int` of 64 bits.
unfoldable pub parse_expand_spec : Text → Result SpecError ℕ
unfolding match_spec trim_space bound_depth read_digits
parse_expand_spec raw = elim (match_spec (trim_space raw)) [
  | none ↦ err malformed_spec
  | some digits ↦ bound_depth (read_digits 0 digits)
]

-- `nodeKey`
unfoldable pub node_key : EntityRef → Text
unfolding to_upper
node_key r = to_upper r.type ++ (codes ":" ++ r.id)

-- The depths by key, and the entities that were labelled in the round.
pub record Labels : Type 0 where
  pub depths : Dict ℕ
  pub next : List EntityRef

unfoldable pub note_neighbor : ℕ → EntityRef → Labels → Labels
unfolding get put node_key
note_neighbor level n s = elim (get s.depths (node_key n)) [
  | some seen ↦ s
  | none ↦ record { depths = put s.depths (node_key n) level; next = s.next ++ n ∷ [] }
]

unfoldable pub note_neighbors : ℕ → List EntityRef → Labels → Labels
unfolding note_neighbor
note_neighbors level [] s = s
note_neighbors level (n ∷ rest) s = note_neighbors level rest (note_neighbor level n s)

module _ (query : EntityRef → Option (List EntityRef)) where
  -- One round; an entity whose query fails is passed over.
  unfoldable pub visit_frontier : ℕ → List EntityRef → Labels → Labels
  unfolding note_neighbors
  visit_frontier level [] s = s
  visit_frontier level (current ∷ rest) s =
      visit_frontier level rest
        (elim (query current) [ none ↦ s | some found ↦ note_neighbors level found s ])

  unfoldable pub label_levels : ℕ → ℕ → List EntityRef → Dict ℕ → Dict ℕ
  unfolding visit_frontier
  label_levels zero level frontier depths = depths
  label_levels (suc rounds) level frontier depths =
      let s = visit_frontier level frontier (record { depths = depths; next = [] }) in
      label_levels rounds (level + 1) s.next s.depths

  -- `expandDepths`, over the query of the neighbours, which gives nothing where it fails.
  unfoldable pub expand_depths : EntityRef → ℕ → Dict ℕ
  unfolding label_levels node_key
  expand_depths root max_depth = label_levels max_depth 1 (root ∷ []) ((node_key root, 0) ∷ [])
