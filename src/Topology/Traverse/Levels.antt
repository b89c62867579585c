-- ===== src/Topology/Traverse/Levels.antt =====
-- The rounds of the recursive query, and what their rows know.
use thingsflow.Base.{
  ℕ, zero, suc, ◌+◌, ◌<◌, List, [], ◌∷◌, ◌≡◌, ◌↔◌, refl, sym, ◌∙◌, ap, subst, inl, inr, Bool, false,
  not, ◌&&◌, In, ltb, arith, &&_iff,
}
use thingsflow.Base.Text.{contains}
use thingsflow.Topology.{EntityRef, ref_eq}
use thingsflow.Topology.Store.Rows.{ref_eq_iff}
use thingsflow.Topology.Traverse.{Link, neighbors_of}
use thingsflow.Topology.Traverse.Query.{
  ExpandRow, path_key, visit, expand_row, expand_step, expand_rounds, expand_all, first_row,
}
use thingsflow.Topology.Traverse.Rows.{In-select_iff, In-append_iff}

pub In-neighbors_of :
    (union : List Link) (m n : EntityRef)
    → In n (neighbors_of union m) ↔ ((l : Link) × In l union × (l.node ≡ m) × (l.nb ≡ n))
unfolding neighbors_of
In-neighbors_of union m n = (
  (λ h.
      let (l, i, e, q) = (In-select_iff (λ l. ref_eq l.node m) (λ l. l.nb) union n).0 h in
      (l, i, (ref_eq_iff l.node m).0 e, sym q)),
  (λ h.
      let (l, i, e, q) = h in
      (In-select_iff (λ l. ref_eq l.node m) (λ l. l.nb) union n).1
        (l, i, (ref_eq_iff l.node m).1 e, sym q)),
)

module _ (union : List Link) (max_depth : ℕ) where
  -- A row is joined by one that is above the depth and has not visited the neighbour.
  abbrev pub Joins : ExpandRow → ExpandRow → Type 0
  Joins r r' =
      (nb : EntityRef) × In nb (neighbors_of union r.node)
      × (r.depth < max_depth)
      × (contains r.path (path_key nb) ≡ false)
      × (r' ≡ visit r nb)

  In-expand_row : (r r' : ExpandRow) → In r' (expand_row union max_depth r) ↔ Joins r r'
  unfolding expand_row
  In-expand_row r r' =
      let p : Link → Bool = λ l.
        ref_eq l.node r.node && (ltb r.depth max_depth && not (contains r.path (path_key l.nb))) in
      (
        (λ h.
            let (l, i, e, q) = (In-select_iff p (λ l. visit r l.nb) union r').0 h in
            let (a, b) = (&&_iff (ref_eq l.node r.node) _).0 e in
            (
              l.nb,
              (In-neighbors_of union r.node l.nb).1 (l, i, (ref_eq_iff l.node r.node).0 a, refl),
              ground (arith, b),
              ground (arith, b),
              q,
            )),
        (λ h.
            let (nb, i, below, fresh, q) = h in
            let (l, j, a, b) = (In-neighbors_of union r.node nb).0 i in
            (In-select_iff p (λ l. visit r l.nb) union r').1 (
              l,
              j,
              (&&_iff (ref_eq l.node r.node) _).1
                  ((ref_eq_iff l.node r.node).1 a, rw b (rw fresh (ground (arith, below)))),
              q ∙ ap (visit r) (sym b),
            )),
      )

  pub In-expand_step :
      (rows : List ExpandRow) (r' : ExpandRow)
      → In r' (expand_step union max_depth rows) ↔ ((r : ExpandRow) × In r rows × Joins r r')
  unfolding expand_step
  In-expand_step [] r' = ((λ h. elim h [ ]), (λ h. elim h.1 [ ]))
  In-expand_step (x ∷ rows) r' =
      let split =
        In-append_iff r' (expand_row union max_depth x) (expand_step union max_depth rows) in
      (
        (λ h. elim (split.0 h) [
          | inl i ↦ (x, inl refl, (In-expand_row x r').0 i)
          | inr i ↦ let (r, j, q) = (In-expand_step rows r').0 i in (r, inr j, q)
        ]),
        (λ h.
            let (r, j, q) = h in
            split.1 (elim j [
              | inl e ↦ inl ((In-expand_row x r').1 (subst (λ y. Joins y r') e q))
              | inr i ↦ inr ((In-expand_step rows r').1 (r, i, q))
            ])),
      )

  -- The rows that the query generates, as derivations.
  pub data Generated (root : EntityRef) : ExpandRow → Type 0 where
    first : Generated root (first_row root)
    joined : {r r' : ExpandRow} → Generated root r → Joins r r' → Generated root r'

  rounds-Generated :
      (root : EntityRef) (rounds : ℕ) (rows : List ExpandRow)
      → ((r : ExpandRow) → In r rows → Generated root r)
      → (r : ExpandRow) → In r (expand_rounds union max_depth rounds rows)
      → Generated root r
  unfolding expand_rounds
  rounds-Generated root zero rows all r h = elim h [ ]
  rounds-Generated root (suc rounds) rows all r h =
      let next = expand_step union max_depth rows in
      elim ((In-append_iff r rows (expand_rounds union max_depth rounds next)).0 h) [
        | inl i ↦ all r i
        | inr i ↦
            rounds-Generated root rounds next
              (λ r' j. let (r0, k, q) = (In-expand_step rows r').0 j in joined (all r0 k) q) r i
      ]

  abbrev pub AtDepth : ℕ → List ExpandRow → Type 0
  AtDepth d rows = (r : ExpandRow) → In r rows → r.depth ≡ d

  pub Joins-depth : (r r' : ExpandRow) → Joins r r' → r'.depth ≡ r.depth + 1
  unfolding visit
  Joins-depth r r' (nb, i, below, fresh, q) = ap (λ x. x.depth) q

  pub step-AtDepth :
      (d : ℕ) (rows : List ExpandRow)
      → AtDepth d rows
      → AtDepth (d + 1) (expand_step union max_depth rows)
  step-AtDepth d rows at r' i =
      let (r, j, q) = (In-expand_step rows r').0 i in Joins-depth r r' q ∙ ap (λ x. x + 1) (at r j)

  -- The rounds that are made are enough: what a row joins is among the rows.
  rounds-closed :
      (rounds d : ℕ) (rows : List ExpandRow)
      → AtDepth d rows
      → d + rounds ≡ max_depth + 1
      → (r r' : ExpandRow) → In r (expand_rounds union max_depth rounds rows)
      → Joins r r'
      → In r' (expand_rounds union max_depth rounds rows)
  unfolding expand_rounds
  rounds-closed zero d rows at e r r' h q = elim h [ ]
  rounds-closed (suc rounds) d rows at e r r' h q =
      let next = expand_step union max_depth rows in
      let rest = expand_rounds union max_depth rounds next in
      (In-append_iff r' rows rest).1 (
        inr (elim ((In-append_iff r rows rest).0 h) [
          | inl i ↦
              more rounds next ((In-expand_step rows r').1 (r, i, q))
                (omega (arith, at r i, q.2, e))
          | inr i ↦
              rounds-closed rounds (d + 1) next (step-AtDepth d rows at) (omega (arith, e)) r r' i q
        ]))
    where
      more :
          (n : ℕ) (next : List ExpandRow)
          → In r' next
          → 0 < n
          → In r' (expand_rounds union max_depth n next)
      more zero next i p = absurd (omega (arith, p))
      more (suc n) next i p =
          (In-append_iff r' next
              (expand_rounds union max_depth n (expand_step union max_depth next))).1
            (inl i)

  -- The query has exactly the rows that are generated.
  pub expand_all-Generated :
      (root : EntityRef) (r : ExpandRow) → In r (expand_all union max_depth root) ↔ Generated root r
  unfolding expand_all
  expand_all-Generated root r = (
    rounds-Generated root (suc max_depth) (first_row root ∷ [])
        (λ r' i. elim i [ inl e ↦ subst (Generated root) (sym e) first | inr x ↦ elim x [ ] ]) r,
    there r,
  )
    where
      there : (r : ExpandRow) → Generated root r → In r (expand_all union max_depth root)
      there r first = (In-append_iff (first_row root) (first_row root ∷ []) _).1 (inl (inl refl))
      there r (joined {r = r0} g q) =
          rounds-closed (suc max_depth) 0 (first_row root ∷ [])
            (λ x i. elim i [
              | inl e ↦ ap (λ y. y.depth) e ∙ (unfold first_row in refl)
              | inr x ↦ elim x [ ]
            ])
            (omega arith) r0 r (there r0 g) q
