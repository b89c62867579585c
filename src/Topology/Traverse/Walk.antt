-- ===== src/Topology/Traverse/Walk.antt =====
-- Walks over neighbours, and how far apart two entities are.
use thingsflow.Base.{ℕ, ◌+◌, ◌≤◌, List, In}
use thingsflow.Topology.{EntityRef}

-- The walks from `a` over `next`, with the number of their edges.
pub data Walk (next : EntityRef → List EntityRef) (a : EntityRef) : EntityRef → ℕ → Type 0 where
  here : Walk next a a 0
  onward : {m n : EntityRef} {k : ℕ} → Walk next a m k → In n (next m) → Walk next a n (k + 1)

-- A walk of at most so many edges leads there.
abbrev pub Within : (EntityRef → List EntityRef) → EntityRef → ℕ → EntityRef → Type 0
Within next a depth n = (k : ℕ) × Walk next a n k × (k ≤ depth)
