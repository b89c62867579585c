-- ===== src/TwinStore/Lww.antt =====
-- The merges of twinstore/store.go value by value: the write with the later time wins.
use thingsflow.Base.{
  [], ◌∷◌, ◌≡◌, ◌≢◌, refl, sym, subst, ap, ◌∙◌, false, Option, none, some, arith, Bool-cases,
  Option-cases, inl, inr, NoDup, In, if◌then◌else◌,
}
use thingsflow.Base.Text.{Text, text_eq, text_eq_iff, text_eq_refl}
use thingsflow.Base.Dict.{Dict, get, put, keys, get-put, get-none}
use thingsflow.Base.Int.{ℤ, lt_int, lt_int_irrefl, lt_int_asymm, lt_int_cotrans, lt_int_antisymm}
use thingsflow.Base.Json.{Json}
use thingsflow.TwinStore.{Value, is_stale, merge_values}

-- The value of a key after a write to it, or after none.
abbrev pub written : ℤ → Option Json → Option Value → Option Value
written ts none held = held
written ts (some v) held = if is_stale ts held then held else some (record { ts = ts; value = v })

-- What one round of the loop holds.
abbrev after_one : ℤ → Text → Json → Dict Value → Dict Value
after_one ts k v held =
    if is_stale ts (get held k) then held else put held k (record { ts = ts; value = v })

get-after_one :
    (ts : ℤ) (j k : Text) (v : Json) (held : Dict Value)
    → get (after_one ts j v held) k
      ≡ (if text_eq j k then written ts (some v) (get held k) else get held k)
get-after_one ts j k v held = elim (Bool-cases (text_eq j k)) [
  | inl e ↦
      let same : j ≡ k = (text_eq_iff j k).0 e in
      rw (e, same)
        (elim (Bool-cases (is_stale ts (get held k))) [
          | inl s ↦ rw s
          | inr s ↦ rw s (rw (get-put, text_eq_refl k))
        ])
  | inr e ↦ elim (Bool-cases (is_stale ts (get held j))) [
    | inl s ↦ rw (e, s)
    | inr s ↦ rw (e, s) (rw (get-put, e))
  ]
]

-- A key holds what the merge writes to it, unless that is stale; the order of the writes, whose
-- keys differ, does not matter.
pub get-merge_values :
    (ts : ℤ) (values : Dict Json) (held : Dict Value) (updated : ℤ) (k : Text)
    → NoDup (keys values)
    → get (merge_values ts values held updated).0 k ≡ written ts (get values k) (get held k)
unfolding merge_values get keys
get-merge_values ts [] held updated k d = refl
get-merge_values ts ((j, v) ∷ rest) held updated k d =
    get-merge_values ts rest (after_one ts j v held) _ k d.1 ∙ elim (Bool-cases (text_eq j k)) [
      | inl e ↦
          let same : j ≡ k = (text_eq_iff j k).0 e in
          let absent : get rest k ≡ none =
            get-none rest k (subst (λ t. ¬ In t (keys rest)) same d.0) in
          rw (e, absent) (get-after_one ts j k v held ∙ rw e)
      | inr e ↦ rw e (ap (written ts (get rest k)) (get-after_one ts j k v held ∙ rw e))
    ]

-- No value is newer than the last update.
abbrev pub Fresh : Dict Value → ℤ → Type 0
Fresh held updated = (k : Text) (v : Value) → get held k ≡ some v → lt_int updated v.ts ≡ false

-- The time of the last update after a write of some values.
abbrev pub updated_by : ℤ → Dict Json → ℤ → ℤ
updated_by ts [] updated = updated
updated_by ts (x ∷ rest) updated = if lt_int updated ts then ts else updated

pub later_le : (ts updated : ℤ) → lt_int (if lt_int updated ts then ts else updated) updated ≡ false
later_le ts updated = elim (Bool-cases (lt_int updated ts)) [
  | inl e ↦ rw e (lt_int_asymm updated ts e)
  | inr e ↦ rw e (lt_int_irrefl updated)
]

ts_le : (ts updated : ℤ) → lt_int (if lt_int updated ts then ts else updated) ts ≡ false
ts_le ts updated = elim (Bool-cases (lt_int updated ts)) [
  | inl e ↦ rw e (lt_int_irrefl ts)
  | inr e ↦ rw e e
]

-- A stale write carries no later time than the last update, so that a round comes to the same.
stale_updated :
    (ts : ℤ) (k : Text) (held : Dict Value) (updated : ℤ)
    → Fresh held updated
    → (if is_stale ts (get held k) then updated else if lt_int updated ts then ts else updated)
      ≡ (if lt_int updated ts then ts else updated)
unfolding is_stale
stale_updated ts k held updated fresh = elim (Option-cases (get held k)) [
  | inl e ↦ rw e
  | inr (v, e) ↦ elim (Bool-cases (lt_int ts v.ts)) [
    | inr s ↦ rw (e, s)
    | inl s ↦
        let late : lt_int updated ts ≡ false = elim (Bool-cases (lt_int updated ts)) [
          | inr q ↦ q
          | inl q ↦
              let r : lt_int ts v.ts ≡ false =
                lt_int_cotrans ts updated v.ts (lt_int_asymm updated ts q) (fresh k v e) in
              cc (r, s)
        ] in
        rw (e, s, late)
  ]
]

Fresh-after_one :
    (ts : ℤ) (j : Text) (w : Json) (held : Dict Value) (updated : ℤ)
    → Fresh held updated
    → Fresh (after_one ts j w held) (if lt_int updated ts then ts else updated)
Fresh-after_one ts j w held updated fresh k v e = elim (Bool-cases (is_stale ts (get held j))) [
  | inl s ↦ lt_int_cotrans _ updated v.ts (later_le ts updated) (fresh k v (rw s at e))
  | inr s ↦ elim (Bool-cases (text_eq j k)) [
    | inl q ↦
        let new : Value = record { ts = ts; value = w } in
        let got : some new ≡ some v = sym (rw (get-put, q)) ∙ (rw s at e) in
        let same : ts ≡ v.ts = cc got in
        subst (λ t. lt_int (if lt_int updated ts then ts else updated) t ≡ false) same
          (ts_le ts updated)
    | inr q ↦
        let got : get held k ≡ some v = sym (rw (get-put, q)) ∙ (rw s at e) in
        lt_int_cotrans _ updated v.ts (later_le ts updated) (fresh k v got)
  ]
]

updated_by_again :
    (ts : ℤ) (rest : Dict Json) (updated : ℤ)
    → updated_by ts rest (if lt_int updated ts then ts else updated)
      ≡ (if lt_int updated ts then ts else updated)
updated_by_again ts [] updated = refl
updated_by_again ts (x ∷ rest) updated = rw (ts_le ts updated)

pub merge_values-cons :
    (ts : ℤ) (j : Text) (v : Json) (rest : Dict Json) (held : Dict Value) (updated : ℤ)
    → Fresh held updated
    → merge_values ts ((j, v) ∷ rest) held updated
      ≡ merge_values ts rest (after_one ts j v held) (if lt_int updated ts then ts else updated)
unfolding merge_values
merge_values-cons ts j v rest held updated fresh =
    ap (merge_values ts rest (after_one ts j v held)) (stale_updated ts j held updated fresh)

pub merge_values-Fresh :
    (ts : ℤ) (values : Dict Json) (held : Dict Value) (updated : ℤ)
    → Fresh held updated
    → ((merge_values ts values held updated).1 ≡ updated_by ts values updated)
      × Fresh (merge_values ts values held updated).0 (merge_values ts values held updated).1
unfolding merge_values
merge_values-Fresh ts [] held updated fresh = (refl, fresh)
merge_values-Fresh ts ((j, v) ∷ rest) held updated fresh =
    rw (merge_values-cons ts j v rest held updated fresh) (
      let (e, f) =
        merge_values-Fresh ts rest (after_one ts j v held)
          (if lt_int updated ts then ts else updated) (Fresh-after_one ts j v held updated fresh) in
      (e ∙ updated_by_again ts rest updated, f))

-- Two writes with different times come to the same in either order.
pub written_comm :
    (a b : ℤ) (x y : Option Json) (held : Option Value)
    → a ≢ b
    → written a x (written b y held) ≡ written b y (written a x held)
unfolding is_stale
written_comm a b none y held h = refl
written_comm a b (some v) none held h = refl
written_comm a b (some v) (some w) none h = ground (arith, lt_int_asymm a b, lt_int_antisymm a b)
written_comm a b (some v) (some w) (some u) h =
    ground (
      arith,
      lt_int_asymm a b,
      lt_int_antisymm a b,
      lt_int_cotrans a b u.ts,
      lt_int_cotrans b a u.ts,
    )

pub updated_by_comm :
    (a b : ℤ) (x y : Dict Json) (updated : ℤ)
    → updated_by a x (updated_by b y updated) ≡ updated_by b y (updated_by a x updated)
updated_by_comm a b [] y updated = refl
updated_by_comm a b (p ∷ x) [] updated = refl
updated_by_comm a b (p ∷ x) (q ∷ y) updated = ground (
  arith,
  lt_int_asymm a b,
  lt_int_antisymm a b,
  lt_int_cotrans updated a b,
  lt_int_cotrans updated b a,
  lt_int_asymm updated a,
  lt_int_asymm updated b,
)
