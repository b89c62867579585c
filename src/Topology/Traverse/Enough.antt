-- ===== src/Topology/Traverse/Enough.antt =====
-- The rounds of the recursive query come to an end.
use thingsflow.Base.{
  ℕ, zero, suc, ◌+◌, ◌≤◌, ◌<◌, List, [], ◌∷◌, ◌++◌, ◌≡◌, refl, ◌∙◌, ap, inl, inr, In, arith,
}
use thingsflow.Topology.{EntityRef}
use thingsflow.Topology.Traverse.{Link}
use thingsflow.Topology.Traverse.Query.{
  ExpandRow, expand_step, expand_rounds, expand_all, first_row,
}
use thingsflow.Topology.Traverse.Levels.{In-expand_step, AtDepth, step-AtDepth}

module _ (union : List Link) (max_depth : ℕ) where
  empty : (rows : List ExpandRow) → ((r : ExpandRow) → ¬ In r rows) → rows ≡ []
  empty [] h = refl
  empty (x ∷ rows) h = absurd (h x (inl refl))

  -- At the depth nothing is joined.
  step-nil :
      (d : ℕ) (rows : List ExpandRow)
      → AtDepth union max_depth d rows
      → max_depth ≤ d
      → expand_step union max_depth rows ≡ []
  step-nil d rows at h = empty (expand_step union max_depth rows) (λ r i.
      let (r0, j, q) = (In-expand_step union max_depth rows r).0 i in
      omega (arith, at r0 j, q.2, h))

  rounds-nil : (n : ℕ) → expand_rounds union max_depth n [] ≡ []
  unfolding expand_rounds expand_step
  rounds-nil zero = refl
  rounds-nil (suc n) = rounds-nil n

  rounds-enough :
      (rounds more d : ℕ) (rows : List ExpandRow)
      → AtDepth union max_depth d rows
      → d + rounds ≡ max_depth
      → rounds ≤ more
      → expand_rounds union max_depth (suc more) rows
        ≡ expand_rounds union max_depth (suc rounds) rows
  unfolding expand_rounds
  rounds-enough zero more d rows at e h =
      rw (step-nil d rows at (omega (arith, e))) (ap (rows ++◌) (rounds-nil more))
  rounds-enough (suc rounds) zero d rows at e h = absurd (omega (arith, h))
  rounds-enough (suc rounds) (suc more) d rows at e h = ap (rows ++◌) (
      rounds-enough rounds more (d + 1) (expand_step union max_depth rows)
        (step-AtDepth union max_depth d rows at) (omega (arith, e)) (omega (arith, h)))

-- The recursive query ends by itself within one round more than the depth, whatever cycles there
-- are: further rounds add no row.
pub expand_all-ends :
    (union : List Link) (max_depth rounds : ℕ) (root : EntityRef)
    → max_depth < rounds
    → expand_rounds union max_depth rounds (first_row root ∷ []) ≡ expand_all union max_depth root
unfolding expand_all
expand_all-ends union max_depth zero root h = absurd (omega (arith, h))
expand_all-ends union max_depth (suc rounds) root h =
    rounds-enough union max_depth max_depth rounds 0 (first_row root ∷ [])
      (λ x i. elim i [
        | inl e ↦ ap (λ y. y.depth) e ∙ (unfold first_row in refl)
        | inr y ↦ elim y [ ]
      ])
      (omega arith) (omega (arith, h))
