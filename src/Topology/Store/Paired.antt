-- ===== src/Topology/Store/Paired.antt =====
-- The bidirectional rows of `topology_edge`, of which two ends have at most one.
use thingsflow.Base.{
  List, [], ◌∷◌, ◌≡◌, ◌↔◌, refl, sym, ◌∙◌, inl, inr, Bool, true, false, Option, none, some, In,
  arith, Bool-cases, &&_iff, ||_iff,
}
use thingsflow.Base.Text.{text_eq_refl}
use thingsflow.Topology.{EntityRef, Edge, ref_eq}
use thingsflow.Topology.Model.{is_bidirectional}
use thingsflow.Topology.Store.{
  upsert, update_where, delete_where, exists_where, find_where, in_group, leads, same_key,
  same_pair, touch_edge, insert_edge, update_pair, save_topology_edge,
}
use thingsflow.Topology.Store.Rows.{exists_where_iff, In-delete_where, find_where-none, ref_eq_iff}
use thingsflow.Topology.Store.Mirrored.{in_group_iff}

-- No bidirectional row stands behind another one between the same ends, in either orientation.
abbrev pub Paired : List Edge → Type 0
Paired [] = Unit
Paired (r ∷ rows) =
    (is_bidirectional r ≡ true → exists_where (same_pair r) rows ≡ false) × Paired rows

exists_where-false :
    {R : Type 0} (p : R → Bool) (rows : List R)
    → ((r : R) → In r rows → p r ≡ false)
    → exists_where p rows ≡ false
unfolding exists_where
exists_where-false p [] h = refl
exists_where-false p (x ∷ rows) h =
    rw (h x (inl refl)) (exists_where-false p rows (λ r i. h r (inr i)))

none_with :
    {R : Type 0} (p : R → Bool) (rows : List R) (r : R)
    → exists_where p rows ≡ false
    → In r rows
    → p r ≡ false
none_with p rows r h i = elim (Bool-cases (p r)) [
  | inr e ↦ e
  | inl e ↦ cc (h, (exists_where_iff p rows).1 (r, i, e))
]

pub delete_where-Paired :
    (p : Edge → Bool) (rows : List Edge) → Paired rows → Paired (delete_where p rows)
unfolding delete_where
delete_where-Paired p [] h = tt
delete_where-Paired p (x ∷ rows) (one, h) = elim (Bool-cases (p x)) [
  | inl e ↦ rw e (delete_where-Paired p rows h)
  | inr e ↦ rw e (
    (λ both.
        exists_where-false (same_pair x) (delete_where p rows)
          (λ r i. none_with (same_pair x) rows r (one both) ((In-delete_where p rows r).0 i).0)),
    delete_where-Paired p rows h,
  )
]

module _ (p : Edge → Bool) (e : Edge) where
  -- Touching a row leaves the fields that pair it.
  upsert-none :
      (q : Edge → Bool) (new : Edge) (rows : List Edge)
      → ((r : Edge) → q (touch_edge e r) ≡ q r)
      → q new ≡ false
      → exists_where q rows ≡ false
      → exists_where q (upsert p (touch_edge e) new rows) ≡ false
  unfolding exists_where upsert
  upsert-none q new [] keep n h = rw n refl
  upsert-none q new (x ∷ rows) keep n h = ground (arith, keep x, upsert-none q new rows keep n)

  update_where-none :
      (q : Edge → Bool) (rows : List Edge)
      → ((r : Edge) → q (touch_edge e r) ≡ q r)
      → exists_where q rows ≡ false
      → exists_where q (update_where p (touch_edge e) rows) ≡ false
  unfolding exists_where update_where
  update_where-none q [] keep h = refl
  update_where-none q (x ∷ rows) keep h = ground (arith, keep x, update_where-none q rows keep)

  touch-pair : (x r : Edge) → same_pair x (touch_edge e r) ≡ same_pair x r
  unfolding same_pair touch_edge in_group leads is_bidirectional
  touch-pair x r = refl

  update_where-Paired :
      (rows : List Edge) → Paired rows → Paired (update_where p (touch_edge e) rows)
  unfolding update_where
  update_where-Paired [] h = tt
  update_where-Paired (x ∷ rows) (one, h) = elim (Bool-cases (p x)) [
    | inl t ↦ rw t (
      (λ both.
          unfold touch_edge same_pair in_group leads is_bidirectional in
          update_where-none (same_pair x) rows (touch-pair x) (one both)),
      update_where-Paired rows h,
    )
    | inr t ↦ rw t (
      (λ both. update_where-none (same_pair x) rows (touch-pair x) (one both)),
      update_where-Paired rows h,
    )
  ]

  upsert-Paired :
      (new : Edge) (rows : List Edge)
      → ((r : Edge) → In r rows → is_bidirectional r ≡ true → same_pair r new ≡ false)
      → Paired rows
      → Paired (upsert p (touch_edge e) new rows)
  unfolding upsert exists_where
  upsert-Paired new [] fresh h = ((λ both. refl), tt)
  upsert-Paired new (x ∷ rows) fresh (one, h) = elim (Bool-cases (p x)) [
    | inl t ↦
        rw t ((λ both. unfold touch_edge same_pair in_group leads is_bidirectional in one both), h)
    | inr t ↦ rw t (
      (λ both.
          upsert-none (same_pair x) new rows (touch-pair x) (fresh x (inl refl) both) (one both)),
      upsert-Paired new rows (λ r i. fresh r (inr i)) h,
    )
  ]

leads_iff :
    (from to : EntityRef) (r : Edge) → (leads from to r ≡ true) ↔ ((r.from ≡ from) × (r.to ≡ to))
unfolding leads
leads_iff from to r =
    let split = &&_iff (ref_eq r.from from) (ref_eq r.to to) in
    let f = ref_eq_iff r.from from in
    let t = ref_eq_iff r.to to in
    ((λ h. let (x, y) = split.0 h in (f.0 x, t.0 y)), (λ h. split.1 (f.1 h.0, t.1 h.1)))

in_group_comm :
    (a b : Edge)
    → in_group a.tenant_id a.relation_type_group a.relation_type b ≡ true
    → in_group b.tenant_id b.relation_type_group b.relation_type a ≡ true
unfolding in_group
in_group_comm a b h =
    let (t, g, y) = in_group_iff a.tenant_id a.relation_type_group a.relation_type b h in
    rw (t, g, y)
      (rw
        (text_eq_refl a.tenant_id, text_eq_refl a.relation_type_group, text_eq_refl a.relation_type)
        refl)

-- Of two bidirectional rows, if one is in the pair of the other, so is the other in its.
same_pair_comm :
    (a b : Edge) → is_bidirectional a ≡ true → same_pair a b ≡ true → same_pair b a ≡ true
unfolding same_pair
same_pair_comm a b both h =
    let (g, h1) = (&&_iff (in_group a.tenant_id a.relation_type_group a.relation_type b) _).0 h in
    let (_, l) = (&&_iff (is_bidirectional b) _).0 h1 in
    let either = (||_iff (leads a.from a.to b) (leads a.to a.from b)).0 l in
    rw (in_group_comm a b g, both)
      ((||_iff (leads b.from b.to a) (leads b.to b.from a)).1 (elim either [
        | inl x ↦
            let (f, t) = (leads_iff a.from a.to b).0 x in
            inl ((leads_iff b.from b.to a).1 (sym f, sym t))
        | inr x ↦
            let (f, t) = (leads_iff a.to a.from b).0 x in
            inr ((leads_iff b.to b.from a).1 (sym t, sym f))
      ]))

not-same_pair :
    (e : Edge) (rows : List Edge)
    → exists_where (same_pair e) rows ≡ false
    → (r : Edge) → In r rows
    → is_bidirectional r ≡ true
    → same_pair r e ≡ false
not-same_pair e rows h r i both = elim (Bool-cases (same_pair r e)) [
  | inr apart ↦ apart
  | inl same ↦ cc (same_pair_comm r e both same, none_with (same_pair e) rows r h i)
]

new_row : (r e : Edge) → same_pair r (record e { version = 1 }) ≡ same_pair r e
unfolding same_pair in_group leads is_bidirectional
new_row r e = refl

directed-pair : (r e : Edge) → is_bidirectional e ≡ false → same_pair r e ≡ false
unfolding same_pair
directed-pair r e one = elim (Bool-cases (same_pair r e)) [
  | inr apart ↦ apart
  | inl same ↦
      let (_, h) =
        (&&_iff (in_group r.tenant_id r.relation_type_group r.relation_type e) _).0 same in
      cc (((&&_iff (is_bidirectional e) _).0 h).0, one)
]

-- Saving keeps the rows paired: a bidirectional edge updates the row that is there.
pub save_topology_edge-Paired :
    (e : Edge) (rows : List Edge) → Paired rows → Paired (save_topology_edge e rows)
unfolding save_topology_edge update_pair insert_edge
save_topology_edge-Paired e rows h = elim (Bool-cases (is_bidirectional e)) [
  | inr one ↦ rw one (
      upsert-Paired (same_key e) e (record e { version = 1 }) rows
        (λ r i both. new_row r e ∙ directed-pair r e one) h)
  | inl both ↦ rw both (pair (find_where (same_pair e) rows) refl)
]
  where
    pair : (o : Option Edge) → find_where (same_pair e) rows ≡ o → Paired (update_pair e rows o)
    pair none q =
        upsert-Paired (same_key e) e (record e { version = 1 }) rows
          (λ r i both.
            new_row r e ∙ not-same_pair e rows (find_where-none (same_pair e) rows q) r i both)
          h
    pair (some found) q = update_where-Paired (same_key found) e rows h
