-- ===== src/Topology/Store/Rows.antt =====
-- The statements on rows, and the keys of the tables.
use thingsflow.Base.{
  List, [], ◌∷◌, ◌≡◌, ◌↔◌, ◌⊎◌, refl, ap, inl, inr, Bool, true, false, none, some, In, arith,
  Bool-cases, &&_iff,
}
use thingsflow.Base.Text.{text_eq, text_eq_iff, text_eq_refl}
use thingsflow.Topology.{EntityRef, ref_eq}
use thingsflow.Topology.Store.{upsert, update_where, delete_where, exists_where, find_where}

pub ref_eq_iff : (a b : EntityRef) → (ref_eq a b ≡ true) ↔ (a ≡ b)
unfolding ref_eq
ref_eq_iff a b = (
  (λ h.
      let (t, i) = (&&_iff (text_eq a.type b.type) (text_eq a.id b.id)).0 h in
      let type : a.type ≡ b.type = (text_eq_iff a.type b.type).0 t in
      let id : a.id ≡ b.id = (text_eq_iff a.id b.id).0 i in
      λ i. record { type = type i; id = id i }),
  (λ h. rw h (rw (text_eq_refl b.type, text_eq_refl b.id) refl)),
)

pub ref_eq_refl : (a : EntityRef) → ref_eq a a ≡ true
ref_eq_refl a = (ref_eq_iff a a).1 refl

module _ {R : Type 0} (p : R → Bool) where
  pub exists_where_iff :
      (rows : List R) → (exists_where p rows ≡ true) ↔ ((r : R) × In r rows × (p r ≡ true))
  unfolding exists_where
  exists_where_iff [] = ((λ h. cc h), (λ h. elim h.1 [ ]))
  exists_where_iff (x ∷ rows) = (
    (λ h. elim (Bool-cases (p x)) [
      | inl e ↦ (x, inl refl, e)
      | inr e ↦ let (r, i, q) = (exists_where_iff rows).0 (rw e at h) in (r, inr i, q)
    ]),
    (λ h. elim (Bool-cases (p x)) [
      | inl e ↦ rw e refl
      | inr e ↦ elim h.1 [
        | inl same ↦ cc (ap p same, h.2, e)
        | inr i ↦ rw e ((exists_where_iff rows).1 (h.0, i, h.2))
      ]
    ]),
  )

  pub In-delete_where :
      (rows : List R) (r : R) → In r (delete_where p rows) ↔ (In r rows × (p r ≡ false))
  unfolding delete_where
  In-delete_where [] r = ((λ h. elim h [ ]), (λ h. elim h.0 [ ]))
  In-delete_where (x ∷ rows) r = elim (Bool-cases (p x)) [
    | inl e ↦ (
      (λ h. let (i, q) = (In-delete_where rows r).0 (rw e at h) in (inr i, q)),
      (λ h. elim h.0 [
        | inl same ↦ cc (ap p same, h.1, e)
        | inr i ↦ rw e ((In-delete_where rows r).1 (i, h.1))
      ]),
    )
    | inr e ↦ (
      (λ h. elim (rw e at h) [
        | inl same ↦ (inl same, rw same e)
        | inr i ↦ let (j, q) = (In-delete_where rows r).0 i in (inr j, q)
      ]),
      (λ h.
          rw e
            (elim h.0 [ inl same ↦ inl same | inr i ↦ inr ((In-delete_where rows r).1 (i, h.1)) ])),
    )
  ]

  pub find_where-none : (rows : List R) → find_where p rows ≡ none → exists_where p rows ≡ false
  unfolding find_where exists_where
  find_where-none [] h = refl
  find_where-none (x ∷ rows) h = elim (Bool-cases (p x)) [
    | inl e ↦ cc (rw e at h)
    | inr e ↦ rw e (find_where-none rows (rw e at h))
  ]

module _ {R : Type 0} (p : R → Bool) (touch : R → R) where
  -- A row of the result is the new one, or an old one, or an old one that was touched.
  pub In-upsert :
      (new : R) (rows : List R) (r : R)
      → In r (upsert p touch new rows)
      → (r ≡ new) ⊎ (In r rows ⊎ ((old : R) × In old rows × (r ≡ touch old)))
  unfolding upsert
  In-upsert new [] r h = elim h [ inl e ↦ inl e | inr x ↦ elim x [ ] ]
  In-upsert new (x ∷ rows) r h = elim (Bool-cases (p x)) [
    | inl e ↦ elim (rw e at h) [
      | inl same ↦ inr (inr (x, inl refl, same))
      | inr i ↦ inr (inl (inr i))
    ]
    | inr e ↦ elim (rw e at h) [
      | inl same ↦ inr (inl (inl same))
      | inr i ↦ elim (In-upsert new rows r i) [
        | inl same ↦ inl same
        | inr (inl j) ↦ inr (inl (inr j))
        | inr (inr (old, j, q)) ↦ inr (inr (old, inr j, q))
      ]
    ]
  ]

  pub In-update_where :
      (rows : List R) (r : R)
      → In r (update_where p touch rows)
      → In r rows ⊎ ((old : R) × In old rows × (r ≡ touch old))
  unfolding update_where
  In-update_where [] r h = elim h [ ]
  In-update_where (x ∷ rows) r h = elim (Bool-cases (p x)) [
    | inl e ↦ elim (rw e at h) [
      | inl same ↦ inr (x, inl refl, same)
      | inr i ↦ later (In-update_where rows r i)
    ]
    | inr e ↦ elim (rw e at h) [
      | inl same ↦ inl (inl same)
      | inr i ↦ later (In-update_where rows r i)
    ]
  ]
    where
      later :
          In r rows ⊎ ((old : R) × In old rows × (r ≡ touch old))
          → In r (x ∷ rows) ⊎ ((old : R) × In old (x ∷ rows) × (r ≡ touch old))
      later (inl j) = inl (inr j)
      later (inr (old, j, q)) = inr (old, inr j, q)

  -- What holds of some row still does, if touching does not change it.
  pub exists_where-upsert :
      (q : R → Bool) (new : R) (rows : List R)
      → ((r : R) → q (touch r) ≡ q r)
      → exists_where q rows ≡ true
      → exists_where q (upsert p touch new rows) ≡ true
  unfolding exists_where upsert
  exists_where-upsert q new [] keep h = cc h
  exists_where-upsert q new (x ∷ rows) keep h =
      ground (arith, keep x, exists_where-upsert q new rows keep)

  -- A row with the key is there.
  pub exists_where-upsert_self :
      (new : R) (rows : List R)
      → ((r : R) → p (touch r) ≡ p r)
      → p new ≡ true
      → exists_where p (upsert p touch new rows) ≡ true
  unfolding exists_where upsert
  exists_where-upsert_self new [] keep h = rw h refl
  exists_where-upsert_self new (x ∷ rows) keep h =
      ground (arith, keep x, exists_where-upsert_self new rows keep h)

  pub exists_where-update_where :
      (q : R → Bool) (rows : List R)
      → ((r : R) → q (touch r) ≡ q r)
      → exists_where q rows ≡ true
      → exists_where q (update_where p touch rows) ≡ true
  unfolding exists_where update_where
  exists_where-update_where q [] keep h = cc h
  exists_where-update_where q (x ∷ rows) keep h =
      ground (arith, keep x, exists_where-update_where q rows keep)

pub find_where-some :
    {R : Type 0} (p : R → Bool) (rows : List R) (r : R)
    → find_where p rows ≡ some r
    → exists_where p rows ≡ true
unfolding find_where exists_where
find_where-some p [] r h = cc h
find_where-some p (x ∷ rows) r h = elim (Bool-cases (p x)) [
  | inl e ↦ rw e refl
  | inr e ↦ rw e (find_where-some p rows r (rw e at h))
]
