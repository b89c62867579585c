-- ===== src/Topology/Expand/Spec.antt =====
-- The parameter `relations(<depth>)` of flow-core/internal/twin/expand.go.
use thingsflow.Base.{ℕ, ◌≤◌, ◌≡◌, inl, inr, Option, none, some, arith, Option-cases}
use thingsflow.Base.Text.{Text, trim_space}
use thingsflow.Base.Strconv.{read_digits}
use thingsflow.Base.Result.{ok}
use thingsflow.Topology.Expand.{match_spec, bound_depth, parse_expand_spec}

bound_depth-eq-ok :
    (o : Option ℕ) (d : ℕ) → bound_depth o ≡ ok d → (o ≡ some d) × (1 ≤ d) × (d ≤ 10)
unfolding bound_depth
bound_depth-eq-ok none d h = cc h
bound_depth-eq-ok (some v) d h = ground (arith, h)

pub parse_expand_spec-bounds :
    (raw : Text) (d : ℕ) → parse_expand_spec raw ≡ ok d → (1 ≤ d) × (d ≤ 10)
unfolding parse_expand_spec
parse_expand_spec-bounds raw d h = elim (Option-cases (match_spec (trim_space raw))) [
  | inl q ↦ cc (rw (parse_expand_spec, q) at h)
  | inr (digits, q) ↦
      let (_, low, high) =
        bound_depth-eq-ok (read_digits 0 digits) d (rw (parse_expand_spec, q) at h) in
      (low, high)
]
