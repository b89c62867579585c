-- ===== src/Topology/Expand/Shortest.antt =====
-- The depths that `expandDepths` of flow-core/internal/twin/expand.go gives.
use thingsflow.Base.{
  ℕ, zero, suc, ◌+◌, ◌≤◌, ◌<◌, List, [], ◌∷◌, ◌++◌, ◌≡◌, ◌⊎◌, refl, sym, subst, inl, inr, Option,
  some, In, arith, Bool-cases,
}
use thingsflow.Base.Text.{Text, text_eq, text_eq_iff, text_eq_refl}
use thingsflow.Base.Dict.{Dict, get}
use thingsflow.Topology.{EntityRef}
use thingsflow.Topology.Traverse.Walk.{Walk, here, onward}
use thingsflow.Topology.Traverse.Rows.{In-append_iff}
use thingsflow.Topology.Expand.{
  Labels, node_key, note_neighbors, visit_frontier, label_levels, expand_depths,
}
use thingsflow.Topology.Expand.Noted.{At, Noted, Noted-none, Noted-append, note_neighbors-Noted}

module _ (nexts : EntityRef → List EntityRef) where
  abbrev answered : EntityRef → Option (List EntityRef)
  answered r = some (nexts r)

  candidates : List EntityRef → List EntityRef
  candidates [] = []
  candidates (m ∷ frontier) = nexts m ++ candidates frontier

  candidates_iff :
      (frontier : List EntityRef) (n : EntityRef)
      → (In n (candidates frontier) → (m : EntityRef) × In m frontier × In n (nexts m))
        × (((m : EntityRef) × In m frontier × In n (nexts m)) → In n (candidates frontier))
  unfolding candidates
  candidates_iff [] n = ((λ h. elim h [ ]), (λ h. elim h.1 [ ]))
  candidates_iff (x ∷ frontier) n =
      let split = In-append_iff n (nexts x) (candidates frontier) in
      (
        (λ h. elim (split.0 h) [
          | inl i ↦ (x, inl refl, i)
          | inr i ↦ let (m, j, q) = (candidates_iff frontier n).0 i in (m, inr j, q)
        ]),
        (λ h.
            let (m, j, q) = h in
            split.1 (elim j [
              | inl e ↦ inl (subst (λ y. In n (nexts y)) e q)
              | inr i ↦ inr ((candidates_iff frontier n).1 (m, i, q))
            ])),
      )

  visit_frontier-Noted :
      (level : ℕ) (frontier : List EntityRef) (s : Labels)
      → Noted level (candidates frontier) s (visit_frontier answered level frontier s)
  unfolding candidates visit_frontier
  visit_frontier-Noted level [] s = Noted-none level s
  visit_frontier-Noted level (m ∷ frontier) s =
      Noted-append level (nexts m) (candidates frontier) s (note_neighbors level (nexts m) s) _
        (note_neighbors-Noted level (nexts m) s)
        (visit_frontier-Noted level frontier (note_neighbors level (nexts m) s))

  module _ (root : EntityRef)
      (distinct : (a b : EntityRef) (i j : ℕ)
        → Walk nexts root a i
        → Walk nexts root b j
        → node_key a ≡ node_key b
        → a ≡ b) where
    -- The labels are the depths up to a level, and the frontier is what has that depth.
    record Leveled (level : ℕ) (frontier : List EntityRef) (depths : Dict ℕ) : Type 0 where
      sound :
          (k : Text) (d : ℕ)
          → At depths k d
          → (n : EntityRef) × (node_key n ≡ k) × Walk nexts root n d × (d ≤ level)
      front :
          (n : EntityRef) → In n frontier → At depths (node_key n) level × Walk nexts root n level
      back : (k : Text) → At depths k level → (n : EntityRef) × In n frontier × (node_key n ≡ k)
      complete :
          (n : EntityRef) (k : ℕ)
          → Walk nexts root n k
          → k ≤ level
          → (d : ℕ) × At depths (node_key n) d × (d ≤ k)

    module _ (level : ℕ) (frontier : List EntityRef) (depths : Dict ℕ) (out : Labels)
        (before : Leveled level frontier depths)
        (noted : Noted
          (level + 1)
          (candidates frontier)
          (record { depths = depths; next = [] })
          out) where
      next-Walk : (n : EntityRef) → In n out.next → Walk nexts root n (level + 1)
      next-Walk n i = elim (noted.found n i) [
        | inl x ↦ elim x [ ]
        | inr j ↦ let (m, k, q) = (candidates_iff frontier n).0 j in onward (before.front m k).1 q
      ]

      next_sound :
          (k : Text) (d : ℕ)
          → At out.depths k d
          → (n : EntityRef) × (node_key n ≡ k) × Walk nexts root n d × (d ≤ level + 1)
      next_sound k d h = elim (noted.fresh k d h) [
        | inl old ↦ let (n, q, w, b) = before.sound k d old in (n, q, w, omega (arith, b))
        | inr (e, (n, i, q)) ↦ (n, q, rw e (next-Walk n i), omega (arith, e))
      ]

      next_back :
          (k : Text)
          → At out.depths k (level + 1)
          → (n : EntityRef) × In n out.next × (node_key n ≡ k)
      next_back k h = elim (noted.fresh k (level + 1) h) [
        | inl old ↦ let (n, q, w, b) = before.sound k (level + 1) old in absurd (omega (arith, b))
        | inr (e, found) ↦ found
      ]

      -- An edge from the frontier ends at a label, and so does one from an entity that is nearer.
      next_complete :
          (n : EntityRef) (k : ℕ)
          → Walk nexts root n k
          → k ≤ level + 1
          → (d : ℕ) × At out.depths (node_key n) d × (d ≤ k)
      next_complete n k here h =
          let (d, a, b) = before.complete n 0 here (omega arith) in
          (d, noted.kept (node_key n) d a, b)
      next_complete n k (onward {m = m} {k = j} w i) h =
          let (d, a, b) = before.complete m j w (omega (arith, h)) in
          let (m', q, w', c) = before.sound (node_key m) d a in
          let same = distinct m' m d j w' w q in
          elim (near d) [
            | inl nearer ↦
                let shorter = onward (subst (λ x. Walk nexts root x d) same w') i in
                let (e, a', b') = before.complete n (d + 1) shorter (omega (arith, nearer)) in
                (e, noted.kept (node_key n) e a', omega (arith, b, b'))
            | inr far ↦
                let at_level : At depths (node_key m) level =
                  subst (At depths (node_key m)) (omega (arith, far, c)) a in
                let (f, in_frontier, key) = before.back (node_key m) at_level in
                let there = distinct f m level j (before.front f in_frontier).1 w key in
                let (e, a') = noted.all n (
                  (candidates_iff frontier n).1
                    (m, subst (λ x. In x frontier) there in_frontier, i)) in
                let (_, _, _, b') = next_sound (node_key n) e a' in
                (e, a', omega (arith, b', far, b))
          ]
        where
          near : (d : ℕ) → (d < level) ⊎ (level ≤ d)
          near d = ground arith

      next-Leveled : Leveled (level + 1) out.next out.depths
      next-Leveled = record {
        sound = next_sound;
        front = λ n i. (noted.labelled (λ m x. elim x [ ]) n i, next-Walk n i);
        back = next_back;
        complete = next_complete;
      }

    first-Leveled : Leveled 0 (root ∷ []) ((node_key root, 0) ∷ [])
    unfolding get
    first-Leveled = record {
      sound = λ k d h. elim (Bool-cases (text_eq (node_key root) k)) [
        | inl e ↦
            let zero_depth : 0 ≡ d = ground (arith, rw e at h) in
            (
              root,
              (text_eq_iff (node_key root) k).0 e,
              subst (Walk nexts root root) zero_depth here,
              omega (arith, zero_depth),
            )
        | inr e ↦ cc (rw e at h)
      ];
      front = λ n i. elim i [
        | inl e ↦
            let there : root ≡ n = sym e in
            (
              subst (λ x. At ((node_key root, 0) ∷ []) (node_key x) 0) there
                  (rw (text_eq_refl (node_key root)) refl),
              subst (λ x. Walk nexts root x 0) there here,
            )
        | inr x ↦ elim x [ ]
      ];
      back = λ k h. elim (Bool-cases (text_eq (node_key root) k)) [
        | inl e ↦ (root, inl refl, (text_eq_iff (node_key root) k).0 e)
        | inr e ↦ cc (rw e at h)
      ];
      complete = start;
    }
      where
        start :
            (n : EntityRef) (k : ℕ)
            → Walk nexts root n k
            → k ≤ 0
            → (d : ℕ) × At ((node_key root, 0) ∷ []) (node_key n) d × (d ≤ k)
        start n k here h = (0, rw (text_eq_refl (node_key root)) refl, omega arith)
        start n k (onward w i) h = absurd (omega (arith, h))

    label_levels-Leveled :
        (rounds level : ℕ) (frontier : List EntityRef) (depths : Dict ℕ)
        → Leveled level frontier depths
        → (last : List EntityRef) × Leveled
            (level + rounds)
            last
            (label_levels answered rounds (level + 1) frontier depths)
    unfolding label_levels
    label_levels-Leveled zero level frontier depths h =
        (frontier, subst (λ x. Leveled x frontier depths) (omega arith) h)
    label_levels-Leveled (suc rounds) level frontier depths h =
        let s =
          visit_frontier answered (level + 1) frontier (record { depths = depths; next = [] }) in
        let (last, l) =
          label_levels-Leveled rounds (level + 1) s.next s.depths (
            next-Leveled level frontier depths s h (visit_frontier-Noted (level + 1) frontier _)) in
        (
          last,
          subst
              (λ x. Leveled x last (label_levels answered (suc rounds) (level + 1) frontier depths))
              (omega arith) l,
        )

    -- An entity that a walk of at most `max_depth` edges reaches is labelled with its distance: a
    -- walk of that many edges leads there, and none of fewer. Every query succeeds, and different
    -- entities that are reached have different keys.
    pub expand_depths-shortest :
        (max_depth : ℕ) (n : EntityRef) (k : ℕ)
        → Walk nexts root n k
        → k ≤ max_depth
        → (d : ℕ) × (get (expand_depths answered root max_depth) (node_key n) ≡ some d)
          × Walk nexts root n d
          × ((j : ℕ) → Walk nexts root n j → d ≤ j)
    unfolding expand_depths
    expand_depths-shortest max_depth n k w h =
        let (last, l) =
          label_levels-Leveled max_depth 0 (root ∷ []) ((node_key root, 0) ∷ []) first-Leveled in
        let (d, a, b) = l.complete n k w (omega (arith, h)) in
        let (n', q, w', c) = l.sound (node_key n) d a in
        (
          d,
          a,
          subst (λ x. Walk nexts root x d) (distinct n' n d k w' w q) w',
          (λ j v. elim (within j) [
            | inr beyond ↦ omega (arith, b, h, beyond)
            | inl inside ↦
                let (e, a', b') = l.complete n j v (omega (arith, inside)) in
                let same : d ≡ e = ground (arith, a, a') in omega (arith, same, b')
          ]),
        )
      where
        within : (j : ℕ) → (j ≤ max_depth) ⊎ (max_depth < j)
        within j = ground arith
