-- ===== src/Policy/Store/Resolve.antt =====
-- What `Resolve` of flow-core/internal/policy/store.go selects among the rows of the catalog.
use thingsflow.Base.{
  ℕ, List, [], ◌∷◌, ◌≡◌, ◌≢◌, refl, subst, ap, ◌∙◌, true, false, none, some, arith, Bool-cases,
  Option-cases, inl, inr, ◌⊎◌, In, All, All-map,
}
use thingsflow.Base.Text.{Text, text_eq, text_eq_iff}
use thingsflow.Base.Result.{Result, ok, err}
use thingsflow.Policy.Lexical.{IdError, normalize_policy_id}
use thingsflow.Policy.Authorize.{DerivedPolicy}
use thingsflow.Policy.Store.{
  Row, StoreError, not_found, forbidden, older, array_lt, is_current, newest, newer_of, resolve,
  resolve_id, resolve_canonical, split_policy_id, or_default, default_policy_id,
  builtin_owner_policy,
}

-- The order of versions is a strict weak order.
array_lt_asymm : (l k : List ℕ) → array_lt l k ≡ true → array_lt k l ≡ false
unfolding array_lt
array_lt_asymm [] [] h = refl
array_lt_asymm [] (b ∷ k) h = refl
array_lt_asymm (a ∷ l) [] h = cc
array_lt_asymm (a ∷ l) (b ∷ k) h = ground (arith, array_lt_asymm l k)

array_lt_cotrans :
    (l m k : List ℕ) → array_lt l m ≡ false → array_lt m k ≡ false → array_lt l k ≡ false
unfolding array_lt
array_lt_cotrans [] [] k h g = g
array_lt_cotrans [] (b ∷ m) k h g = cc
array_lt_cotrans (a ∷ l) m [] h g = refl
array_lt_cotrans (a ∷ l) [] (c ∷ k) h g = cc
array_lt_cotrans (a ∷ l) (b ∷ m) (c ∷ k) h g = ground (arith, array_lt_cotrans l m k)

older_asymm : (r q : Row) → older r q ≡ true → older q r ≡ false
unfolding older
older_asymm r q h = array_lt_asymm _ _ h

older_irrefl : (r : Row) → older r r ≡ false
older_irrefl r = elim (Bool-cases (older r r)) [ inl e ↦ older_asymm r r e | inr e ↦ e ]

older_cotrans : (r q p : Row) → older r q ≡ false → older q p ≡ false → older r p ≡ false
unfolding older
older_cotrans r q p h k = array_lt_cotrans _ _ _ h k

-- No row of the policy stands in a version that is not deprecated.
abbrev pub NoCurrent : Text → Text → List Row → Type 0
NoCurrent tenant id rows = All (λ r. is_current tenant id r ≡ false) rows

-- No current row of the policy has a newer version than `r`.
abbrev pub Bounds : Text → Text → Row → List Row → Type 0
Bounds tenant id r rows = All (λ q. is_current tenant id q ≡ true → older r q ≡ false) rows

-- The row is a current one of the policy, and none is newer.
abbrev pub IsNewest : Text → Text → Row → List Row → Type 0
IsNewest tenant id r rows = In r rows × (is_current tenant id r ≡ true) × Bounds tenant id r rows

module _ (tenant id : Text) where
  pub newest-none : (rows : List Row) → newest tenant id rows ≡ none → NoCurrent tenant id rows
  unfolding newest
  newest-none [] h = tt
  newest-none (r ∷ rows) h = elim (Bool-cases (is_current tenant id r)) [
    | inl e ↦ ground (arith, e)
    | inr e ↦ (e, newest-none rows (ground (arith, e)))
  ]

  newer_of-IsNewest :
      (r q : Row) (rows : List Row)
      → is_current tenant id r ≡ true
      → IsNewest tenant id q rows
      → IsNewest tenant id (newer_of r (some q)) (r ∷ rows)
  newer_of-IsNewest r q rows c (m, d, b) = elim (Bool-cases (older r q)) [
    | inl e ↦
        let n : q ≡ newer_of r (some q) = ground (arith, e) in
        subst (λ x. IsNewest tenant id x (r ∷ rows)) n (inr m, d, ((λ _. older_asymm r q e), b))
    | inr e ↦
        let n : r ≡ newer_of r (some q) = ground (arith, e) in
        subst (λ x. IsNewest tenant id x (r ∷ rows)) n
          (
            inl refl,
            c,
            ((λ _. older_irrefl r), All-map _ _ rows (λ p h k. older_cotrans r q p e (h k)) b),
          )
  ]

  alone-IsNewest :
      (r : Row) (rows : List Row)
      → is_current tenant id r ≡ true
      → NoCurrent tenant id rows
      → IsNewest tenant id r (r ∷ rows)
  alone-IsNewest r rows c n =
      (inl refl, c, ((λ _. older_irrefl r), All-map _ _ rows (λ p h k. cc (h, k)) n))

  skip-IsNewest :
      (r q : Row) (rows : List Row)
      → is_current tenant id r ≡ false
      → IsNewest tenant id q rows
      → IsNewest tenant id q (r ∷ rows)
  skip-IsNewest r q rows c (m, d, b) = (inr m, d, ((λ h. cc (h, c)), b))

  pub newest-IsNewest :
      (rows : List Row) (r : Row) → newest tenant id rows ≡ some r → IsNewest tenant id r rows
  unfolding newest
  newest-IsNewest [] r h = cc h
  newest-IsNewest (q ∷ rows) r h = elim (Bool-cases (is_current tenant id q)) [
    | inr e ↦ skip-IsNewest q r rows e (newest-IsNewest rows r (rw e at h))
    | inl e ↦ elim (Option-cases (newest tenant id rows)) [
      | inl n ↦
          subst (λ x. IsNewest tenant id x (q ∷ rows)) (cc (rw (e, n) at h))
            (alone-IsNewest q rows e (newest-none rows n))
      | inr (p, n) ↦
          subst (λ x. IsNewest tenant id x (q ∷ rows)) (cc (rw (e, n) at h))
            (newer_of-IsNewest q p rows e (newest-IsNewest rows p n))
    ]
  ]

-- What a query for a canonical identifier answers.
abbrev pub Answers : Text → Text → List Row → Result StoreError DerivedPolicy → Type 0
Answers tenant id rows out =
    ((r : Row) × IsNewest tenant id r rows × (out ≡ ok r.schema))
    ⊎ (NoCurrent tenant id rows
        × (id ≡ default_policy_id)
        × (out ≡ ok (builtin_owner_policy tenant)))
    ⊎ (NoCurrent tenant id rows × (id ≢ default_policy_id) × (out ≡ err not_found))

resolve_canonical-Answers :
    (tenant id : Text) (rows : List Row)
    → Answers tenant id rows (resolve_canonical tenant id true rows)
unfolding resolve_canonical
resolve_canonical-Answers tenant id rows = elim (Option-cases (newest tenant id rows)) [
  | inr (r, e) ↦ inl (r, newest-IsNewest tenant id rows r e, rw e)
  | inl e ↦ elim (Bool-cases (text_eq id default_policy_id)) [
    | inl d ↦ inr (inl (newest-none tenant id rows e, (text_eq_iff _ _).0 d, rw (e, d)))
    | inr d ↦ inr (
        inr (
          newest-none tenant id rows e,
          (λ p. cc (d, (text_eq_iff id default_policy_id).1 p)),
          rw (e, d),
        ))
  ]
]

-- The outcome for the identifier of a policy of the tenant's own.
abbrev pub AnswersId : Text → Text → List Row → Result StoreError DerivedPolicy → Type 0
AnswersId tenant id rows out =
    ((e : IdError) × (normalize_policy_id (or_default id) ≡ err e) × (out ≡ err not_found))
    ⊎ ((c : Text) × (normalize_policy_id (or_default id) ≡ ok c) × Answers tenant c rows out)

resolve_id-AnswersId :
    (tenant id : Text) (rows : List Row) → AnswersId tenant id rows (resolve_id tenant id true rows)
unfolding resolve_id
resolve_id-AnswersId tenant id rows = go (normalize_policy_id (or_default id)) refl
  where
    go :
        (n : Result IdError Text)
        → normalize_policy_id (or_default id) ≡ n
        → AnswersId tenant id rows (resolve_id tenant id true rows)
    go (err e) q = inl (e, q, rw (q, resolve_id))
    go (ok c) q = inr (c, q, rw (q, resolve_id) (resolve_canonical-Answers tenant c rows))

-- On a database that answers, `resolve` refuses a reference to another tenant as forbidden. For
-- any other reference it returns the schema of a row of the tenant's policy of the canonical
-- identifier that is not deprecated and has no newer such row; where no such row is, the built-in
-- policy for the default identifier and not-found for any other; and not-found where the
-- identifier has no canonical form.
pub resolve_lem :
    (tenant policy_id : Text) (rows : List Row)
    → ((owner id : Text) × (split_policy_id policy_id ≡ some (owner, id))
        × (owner ≢ tenant)
        × (resolve tenant policy_id true rows ≡ err forbidden))
      ⊎ ((id : Text) × (split_policy_id policy_id ≡ some (tenant, id))
          × AnswersId tenant id rows (resolve tenant policy_id true rows))
      ⊎ ((split_policy_id policy_id ≡ none)
          × AnswersId tenant policy_id rows (resolve tenant policy_id true rows))
unfolding resolve
resolve_lem tenant policy_id rows = elim (Option-cases (split_policy_id policy_id)) [
  | inl e ↦ inr (inr (e, rw (e, resolve) (resolve_id-AnswersId tenant policy_id rows)))
  | inr ((owner, id), e) ↦ elim (Bool-cases (text_eq owner tenant)) [
    | inl o ↦
        let p : owner ≡ tenant = (text_eq_iff owner tenant).0 o in
        inr (
          inl (
            id,
            e ∙ ap (λ t. some (t, id)) p,
            rw (e, resolve, o) (resolve_id-AnswersId tenant id rows),
          ))
    | inr o ↦ inl (owner, id, e, (λ p. cc (o, (text_eq_iff owner tenant).1 p)), rw (e, resolve, o))
  ]
]
