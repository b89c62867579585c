-- ===== src/Topology/Traverse/Rows.antt =====
-- The rows of queries that select, order and leave out what is the same.
use thingsflow.Base.{
  ℕ, zero, suc, ◌≤◌, List, [], ◌∷◌, ◌++◌, map, ◌≡◌, ◌↔◌, ◌⊎◌, refl, sym, ◌∙◌, ap, inl, inr, Bool,
  true, In, NoDup, length, take, ltb, arith, Bool-cases,
}
use thingsflow.Topology.Store.{delete_where}
use thingsflow.Topology.Store.Rows.{In-delete_where}
use thingsflow.Topology.Traverse.{select, distinct_on}
use thingsflow.Topology.Traverse.Query.{insert_row, order_by}

pub In-select_iff :
    {R S : Type 0} (p : R → Bool) (columns : R → S) (rows : List R) (s : S)
    → In s (select p columns rows) ↔ ((r : R) × In r rows × (p r ≡ true) × (s ≡ columns r))
unfolding select
In-select_iff p columns [] s = ((λ h. elim h [ ]), (λ h. elim h.1 [ ]))
In-select_iff p columns (x ∷ rows) s = elim (Bool-cases (p x)) [
  | inl e ↦ (
    (λ h. elim (rw e at h) [
      | inl same ↦ (x, inl refl, e, same)
      | inr i ↦ let (r, j, q, same) = (In-select_iff p columns rows s).0 i in (r, inr j, q, same)
    ]),
    (λ h.
        let (r, j, q, same) = h in
        rw e (elim j [
          | inl eq ↦ inl (rw (same, eq) refl)
          | inr i ↦ inr ((In-select_iff p columns rows s).1 (r, i, q, same))
        ])),
  )
  | inr e ↦ (
    (λ h.
        let (r, j, q, same) = (In-select_iff p columns rows s).0 (rw e at h) in
        (r, inr j, q, same)),
    (λ h.
        let (r, j, q, same) = h in
        rw e (elim j [
          | inl eq ↦ cc (ap p eq, q, e)
          | inr i ↦ (In-select_iff p columns rows s).1 (r, i, q, same)
        ])),
  )
]

pub In-append_iff : {A : Type 0} (a : A) (xs ys : List A) → In a (xs ++ ys) ↔ (In a xs ⊎ In a ys)
In-append_iff a [] ys = (inr, λ h. elim h [ inl x ↦ elim x [ ] | inr y ↦ y ])
In-append_iff a (x ∷ xs) ys = ground (arith, In-append_iff a xs ys)

-- What is in a union of four queries is in one of them.
pub In-four_iff :
    {A : Type 0} (a : A) (p q r s : List A)
    → In a (p ++ (q ++ (r ++ s))) ↔ (In a p ⊎ (In a q ⊎ (In a r ⊎ In a s)))
In-four_iff a p q r s =
    ground
      (arith, In-append_iff a p (q ++ (r ++ s)), In-append_iff a q (r ++ s), In-append_iff a r s)

pub In-map_iff :
    {A B : Type 0} (f : A → B) (xs : List A) (b : B)
    → In b (map f xs) ↔ ((a : A) × In a xs × (b ≡ f a))
In-map_iff f [] b = ((λ h. elim h [ ]), (λ h. elim h.1 [ ]))
In-map_iff f (x ∷ xs) b = (
  (λ h. elim h [
    | inl e ↦ (x, inl refl, e)
    | inr i ↦ let (a, j, e) = (In-map_iff f xs b).0 i in (a, inr j, e)
  ]),
  (λ h.
      let (a, j, e) = h in
      elim j [ inl eq ↦ inl (rw (e, eq) refl) | inr i ↦ inr ((In-map_iff f xs b).1 (a, i, e)) ]),
)

pub length-map : {A B : Type 0} (f : A → B) (xs : List A) → length (map f xs) ≡ length xs
length-map f [] = refl
length-map f (x ∷ xs) = ap suc (length-map f xs)

pub map-map :
    {A B C : Type 0} (g : B → C) (f : A → B) (xs : List A)
    → map g (map f xs) ≡ map (λ x. g (f x)) xs
map-map g f [] = refl
map-map g f (x ∷ xs) = ap (g (f x) ∷◌) (map-map g f xs)

-- A limit of one more than so many shows whether there are more, and leaves whole what has not.
pub take-more :
    {A : Type 0} (n : ℕ) (xs : List A) → ltb n (length (take (suc n) xs)) ≡ ltb n (length xs)
take-more n [] = refl
take-more zero (x ∷ xs) = ground arith
take-more (suc n) (x ∷ xs) = ground (arith, take-more n xs)

pub take-short : {A : Type 0} (n : ℕ) (xs : List A) → length xs ≤ n → take (suc n) xs ≡ xs
take-short n [] h = refl
take-short zero (x ∷ xs) h = absurd (omega (arith, h))
take-short (suc n) (x ∷ xs) h = ap (x ∷◌) (take-short n xs (omega (arith, h)))

module _ {R : Type 0} (leq : R → R → Bool) where
  In-insert_row :
      (a : R) (rows : List R) (r : R) → In r (insert_row leq a rows) ↔ ((r ≡ a) ⊎ In r rows)
  unfolding insert_row
  In-insert_row a [] r = ground arith
  In-insert_row a (x ∷ rows) r = ground (arith, In-insert_row a rows r)

  pub In-order_by : (rows : List R) (r : R) → In r (order_by leq rows) ↔ In r rows
  unfolding order_by
  In-order_by [] r = ((λ h. h), (λ h. h))
  In-order_by (x ∷ rows) r =
      ground (arith, In-insert_row x (order_by leq rows) r, In-order_by rows r)

  module _ {K : Type 0} (key : R → K) where
    NoDup-insert_row :
        (a : R) (rows : List R)
        → (¬ In (key a) (map key rows))
        → NoDup (map key rows)
        → NoDup (map key (insert_row leq a rows))
    unfolding insert_row
    NoDup-insert_row a [] n h = (n, tt)
    NoDup-insert_row a (x ∷ rows) n (m, h) = elim (Bool-cases (leq a x)) [
      | inl e ↦ rw e (n, (m, h))
      | inr e ↦ rw e (
        (λ i.
            let (r, j, q) = (In-map_iff key (insert_row leq a rows) (key x)).0 i in
            elim ((In-insert_row a rows r).0 j) [
              | inl same ↦ n (inl (sym (q ∙ ap key same)))
              | inr k ↦ m ((In-map_iff key rows (key x)).1 (r, k, q))
            ]),
        NoDup-insert_row a rows (λ i. n (inr i)) h,
      )
    ]

    pub NoDup-order_by :
        (rows : List R) → NoDup (map key rows) → NoDup (map key (order_by leq rows))
    unfolding order_by
    NoDup-order_by [] h = tt
    NoDup-order_by (x ∷ rows) (n, h) =
        NoDup-insert_row x (order_by leq rows)
          (λ i.
            let (r, j, q) = (In-map_iff key (order_by leq rows) (key x)).0 i in
            n ((In-map_iff key rows (key x)).1 (r, (In-order_by rows r).0 j, q)))
          (NoDup-order_by rows h)

module _ {R : Type 0} (same : R → R → Bool) where
  pub In-distinct_on : (rows : List R) (r : R) → In r (distinct_on same rows) → In r rows
  unfolding distinct_on
  In-distinct_on (x ∷ rows) r (inl e) = inl e
  In-distinct_on (x ∷ rows) r (inr i) =
      inr (In-distinct_on rows r ((In-delete_where (same x) (distinct_on same rows) r).0 i).0)
  In-distinct_on [] r h = elim h [ ]

  module _ {K : Type 0} (key : R → K)
      (same_iff : (a b : R) → (same a b ≡ true) ↔ (key a ≡ key b)) where
    -- Of every row one with its key is kept.
    pub distinct_on-In :
        (rows : List R) (r : R)
        → In r rows
        → (r' : R) × In r' (distinct_on same rows) × (key r' ≡ key r)
    unfolding distinct_on
    distinct_on-In (x ∷ rows) r (inl e) = (x, inl refl, ap key (sym e))
    distinct_on-In (x ∷ rows) r (inr i) =
        let (r', j, q) = distinct_on-In rows r i in
        elim (Bool-cases (same x r')) [
          | inl s ↦ (x, inl refl, (same_iff x r').0 s ∙ q)
          | inr s ↦ (r', inr ((In-delete_where (same x) (distinct_on same rows) r').1 (j, s)), q)
        ]
    distinct_on-In [] r h = elim h [ ]

    NoDup-delete_where :
        (p : R → Bool) (rows : List R)
        → NoDup (map key rows)
        → NoDup (map key (delete_where p rows))
    unfolding delete_where
    NoDup-delete_where p [] h = tt
    NoDup-delete_where p (x ∷ rows) (n, h) = elim (Bool-cases (p x)) [
      | inl e ↦ rw e (NoDup-delete_where p rows h)
      | inr e ↦ rw e (
        (λ i.
            let (r, j, q) = (In-map_iff key (delete_where p rows) (key x)).0 i in
            n ((In-map_iff key rows (key x)).1 (r, ((In-delete_where p rows r).0 j).0, q))),
        NoDup-delete_where p rows h,
      )
    ]

    -- No two of the rows that are kept have the same key.
    pub distinct_on-NoDup : (rows : List R) → NoDup (map key (distinct_on same rows))
    unfolding distinct_on
    distinct_on-NoDup [] = tt
    distinct_on-NoDup (x ∷ rows) = (
      (λ i.
          let kept = delete_where (same x) (distinct_on same rows) in
          let (r, j, q) = (In-map_iff key kept (key x)).0 i in
          cc ((same_iff x r).1 q, ((In-delete_where (same x) (distinct_on same rows) r).0 j).1)),
      NoDup-delete_where (same x) (distinct_on same rows) (distinct_on-NoDup rows),
    )
