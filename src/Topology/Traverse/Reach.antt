-- ===== src/Topology/Traverse/Reach.antt =====
-- The recursive query of flow-core/internal/topology/topology.go finds what walks reach.
use thingsflow.Base.{
  ℕ, ◌≤◌, List, [], ◌∷◌, ◌++◌, ◌≡◌, ◌≢◌, ◌↔◌, refl, sym, ◌∙◌, ap, subst, inl, inr, In, All, arith,
  Bool-cases,
}
use thingsflow.Base.Text.{Text, contains, contains_iff}
use thingsflow.Topology.{EntityRef}
use thingsflow.Topology.Traverse.{Link, neighbors_of}
use thingsflow.Topology.Traverse.Query.{ExpandRow, path_key, visit, first_row, expand_all}
use thingsflow.Topology.Traverse.Walk.{Walk, here, onward, Within}
use thingsflow.Topology.Traverse.Rows.{In-append_iff}
use thingsflow.Topology.Traverse.Levels.{
  Generated, first, joined, In-neighbors_of, expand_all-Generated,
}

-- The type has no colon, so that a key of a path tells where the type ends.
abbrev pub Plain : EntityRef → Type 0
Plain r = All (λ c. c ≢ 58) r.type

path_key-injective : (a b : EntityRef) → Plain a → Plain b → path_key a ≡ path_key b → a ≡ b
unfolding path_key
path_key-injective a b p q e =
    let (t, i) = split a.type b.type p q e in λ k. record { type = t k; id = i k }
  where
    split :
        (x y : Text) {u v : Text}
        → All (λ c. c ≢ 58) x
        → All (λ c. c ≢ 58) y
        → x ++ 58 ∷ u ≡ y ++ 58 ∷ v
        → (x ≡ y) × (u ≡ v)
    split [] [] p q e = ground (arith, e)
    split [] (d ∷ y) p q e = absurd (q.0 (ground (arith, e)))
    split (c ∷ x) [] p q e = absurd (p.0 (ground (arith, e)))
    split (c ∷ x) (d ∷ y) {u = u} {v = v} p q e =
        let head : c ≡ d = cc e in
        let tail : (x ++ 58 ∷ u) ≡ (y ++ 58 ∷ v) = cc e in
        let (s, t) = split x y p.1 q.1 tail in (cc (head, s), t)

module _ (union : List Link) (max_depth : ℕ) (root : EntityRef) where
  abbrev next : EntityRef → List EntityRef
  next = neighbors_of union

  -- A row is the end of a walk of its depth.
  pub Generated-Walk :
      (r : ExpandRow)
      → Generated union max_depth root r
      → Walk next root r.node r.depth × (r.depth ≤ max_depth)
  unfolding visit first_row
  Generated-Walk r first = (here, omega arith)
  Generated-Walk r (joined {r = r0} g (nb, i, below, fresh, q)) =
      let (w, h) = Generated-Walk r0 g in
      (
        subst (λ x. Walk next root x.node x.depth) (sym q) (onward w i),
        subst (λ x. x.depth ≤ max_depth) (sym q) (omega (arith, below)),
      )

  -- What stands in a path is the key of a row that is no deeper.
  seen :
      (r : ExpandRow) (k : Text)
      → Generated union max_depth root r
      → In k r.path
      → (r' : ExpandRow) × Generated union max_depth root r'
        × (path_key r'.node ≡ k)
        × (r'.depth ≤ r.depth)
  unfolding visit first_row
  seen r k first (inl e) = (first_row root, first, sym e, omega arith)
  seen r k first (inr x) = elim x [ ]
  seen r k (joined {r = r0} g (nb, i, below, fresh, q)) h =
      elim ((In-append_iff k r0.path (path_key nb ∷ [])).0 (subst (λ x. In k x.path) q h)) [
        | inl j ↦
            let (r', g', e, d) = seen r0 k g j in
            (r', g', e, subst (λ x. r'.depth ≤ x.depth) (sym q) (omega (arith, d)))
        | inr (inl e) ↦
            (r, joined g (nb, i, below, fresh, q), ap (λ x. path_key x.node) q ∙ sym e, omega arith)
        | inr (inr x) ↦ elim x [ ]
      ]

  module _ (plain_root : Plain root) (plain : (l : Link) → In l union → Plain l.nb) where
    Plain-next : (m n : EntityRef) → In n (next m) → Plain n
    Plain-next m n i =
        let (l, j, a, b) = (In-neighbors_of union m n).0 i in subst Plain b (plain l j)

    Generated-Plain : (r : ExpandRow) → Generated union max_depth root r → Plain r.node
    unfolding visit first_row
    Generated-Plain r first = plain_root
    Generated-Plain r (joined {r = r0} g (nb, i, below, fresh, q)) =
        subst (λ x. Plain x.node) (sym q) (Plain-next r0.node nb i)

    -- The end of a walk within the depth has a row that is no deeper than the walk is long: either
    -- the row before joins it, or the path of that row has been there.
    pub Walk-Generated :
        {n : EntityRef} {k : ℕ}
        → Walk next root n k
        → k ≤ max_depth
        → (r : ExpandRow) × Generated union max_depth root r × (r.node ≡ n) × (r.depth ≤ k)
    unfolding visit first_row
    Walk-Generated here h = (first_row root, first, refl, omega arith)
    Walk-Generated (onward {m = m} {n = n} {k = k} w i) h =
        let (r, g, e, d) = Walk-Generated w (omega (arith, h)) in
        let at : In n (next r.node) = subst (λ x. In n (next x)) (sym e) i in
        elim (Bool-cases (contains r.path (path_key n))) [
          | inl old ↦
              let (r', g', q, d') =
                seen r (path_key n) g ((contains_iff r.path (path_key n)).0 old) in
              (
                r',
                g',
                path_key-injective r'.node n (Generated-Plain r' g') (Plain-next m n i) q,
                omega (arith, d, d'),
              )
          | inr new ↦
              (visit r n, joined g (n, at, omega (arith, d, h), new, refl), refl, omega (arith, d))
        ]

    -- The rows are of exactly the entities that a walk within the depth reaches.
    pub expand_all_iff :
        (n : EntityRef)
        → ((r : ExpandRow) × In r (expand_all union max_depth root) × (r.node ≡ n))
          ↔ Within next root max_depth n
    expand_all_iff n = (
      (λ h.
          let (r, i, e) = h in
          let (w, d) = Generated-Walk r ((expand_all-Generated union max_depth root r).0 i) in
          (r.depth, subst (λ x. Walk next root x r.depth) e w, d)),
      (λ h.
          let (k, w, d) = h in
          let (r, g, e, _) = Walk-Generated w d in
          (r, (expand_all-Generated union max_depth root r).1 g, e)),
    )
