-- ===== src/Policy/Store/Selection.antt =====
-- What `Create` and `Deprecate` of flow-core/internal/policy/store.go mean for `Resolve`.
use thingsflow.Policy.Store.Versions.{create-Created, has_key_iff}
use thingsflow.Policy.Store.Resolve.{newest-IsNewest, Bounds}
use thingsflow.Base.{
  ℕ, List, [], ◌∷◌, ◌≡◌, ◌≢◌, refl, sym, subst, ◌∙◌, Bool, true, false, none, some, ◌⊎◌, arith,
  Bool-cases, Option-cases, inl, inr, All, All-In, if◌then◌else◌,
}
use thingsflow.Base.Text.{Text, text_eq, text_eq_iff, text_eq_refl}
use thingsflow.Base.Result.{Result, ok, err}
use thingsflow.Policy.Normalize.{Authored}
use thingsflow.Policy.Store.{
  Row, older, is_current, newest, resolve, resolve_id, resolve_canonical, split_policy_id, has_key,
  create_policy, deprecate_rows, deprecate, or_default,
}
use thingsflow.Policy.Lexical.{IdError, normalize_policy_id}

-- `resolve` reads the rows by `newest` alone.
module _ (tenant : Text) (rows rows' : List Row)
    (same : (id : Text) → newest tenant id rows' ≡ newest tenant id rows) where
  resolve_id-newest : (id : Text) → resolve_id tenant id true rows' ≡ resolve_id tenant id true rows
  unfolding resolve_id resolve_canonical
  resolve_id-newest id = go (normalize_policy_id (or_default id)) refl
    where
      go :
          (n : Result IdError Text)
          → normalize_policy_id (or_default id) ≡ n
          → resolve_id tenant id true rows' ≡ resolve_id tenant id true rows
      go (err e) q = rw (q, resolve_id)
      go (ok c) q = rw (q, resolve_id, same c)

  resolve-newest :
      (policy_id : Text) → resolve tenant policy_id true rows' ≡ resolve tenant policy_id true rows
  unfolding resolve
  resolve-newest policy_id = elim (Option-cases (split_policy_id policy_id)) [
    | inl e ↦ rw (e, resolve) (resolve_id-newest policy_id)
    | inr ((owner, id), e) ↦ elim (Bool-cases (text_eq owner tenant)) [
      | inl o ↦ rw (e, resolve, o) (resolve_id-newest id)
      | inr o ↦ rw (e, resolve, o)
    ]
  ]

-- The rows without one version.
unfoldable pub without : Text → Text → Text → List Row → List Row
unfolding has_key
without tenant id version [] = []
without tenant id version (r ∷ rows) =
    let rest = without tenant id version rows in
    if has_key tenant id version r then rest else r ∷ rest

newest-deprecate_rows :
    (tenant id version : Text) (now : ℕ) (t i : Text) (rows : List Row)
    → newest t i (deprecate_rows tenant id version now rows)
      ≡ newest t i (without tenant id version rows)
unfolding newest deprecate_rows without is_current
newest-deprecate_rows tenant id version now t i [] = refl
newest-deprecate_rows tenant id version now t i (r ∷ rows) =
    elim (Bool-cases (has_key tenant id version r)) [
      | inl e ↦ ground (arith, e, newest-deprecate_rows tenant id version now t i rows)
      | inr e ↦ ground (arith, e, newest-deprecate_rows tenant id version now t i rows)
    ]

newest-without_ne :
    (tenant id version t i : Text) (rows : List Row)
    → tenant ≢ t
    → newest t i (without tenant id version rows) ≡ newest t i rows
unfolding newest without is_current
newest-without_ne tenant id version t i [] h = refl
newest-without_ne tenant id version t i (r ∷ rows) h =
    elim (Bool-cases (has_key tenant id version r)) [
      | inl e ↦ ground (
        arith,
        e,
        has_key_iff tenant id version r e,
        text_eq_iff r.tenant_id t,
        newest-without_ne tenant id version t i rows h,
      )
      | inr e ↦ ground (arith, e, newest-without_ne tenant id version t i rows h)
    ]

-- After `deprecate` has flagged a version, every reference is resolved as if the version were not
-- in the catalog.
pub resolve-deprecate :
    (tenant id version policy_id : Text) (now : ℕ) (t : Text) (rows : List Row)
    → resolve t policy_id true (deprecate tenant id version now true rows).1
      ≡ resolve t policy_id true (without tenant id version rows)
unfolding deprecate
resolve-deprecate tenant id version policy_id now t rows =
    resolve-newest t (without tenant id version rows) (deprecate_rows tenant id version now rows)
      (λ i. newest-deprecate_rows tenant id version now t i rows) policy_id

newest-other :
    (t i : Text) (r : Row) (rows : List Row)
    → r.tenant_id ≢ t
    → newest t i (r ∷ rows) ≡ newest t i rows
unfolding newest is_current
newest-other t i r rows h = ground (arith, text_eq_iff r.tenant_id t)

-- What a tenant creates or deprecates, whether the database answers or not, changes no other
-- tenant's resolution of any reference.
pub resolve-other_tenant :
    (tenant other policy_id id version : Text) (authored : Authored) (now : ℕ) (answered : Bool)
    (rows : List Row)
    → tenant ≢ other
    → (resolve other policy_id true (create_policy tenant authored now answered rows).1
        ≡ resolve other policy_id true rows)
      × (resolve other policy_id true (deprecate tenant id version now answered rows).1
          ≡ resolve other policy_id true rows)
unfolding deprecate
resolve-other_tenant tenant other policy_id id version authored now answered rows h = (
  elim (create-Created tenant authored now answered rows) [
    | inl (x, e) ↦ rw e
    | inr (r, p, d, f, e) ↦ rw e (
        resolve-newest other rows (r ∷ rows) (λ i. newest-other other i r rows (λ q. h (sym p ∙ q)))
          policy_id)
  ],
  elim (Bool-cases answered) [
    | inl a ↦ rw a (
        resolve-newest other rows (deprecate_rows tenant id version now rows)
          (λ i.
            newest-deprecate_rows tenant id version now other i rows
            ∙ newest-without_ne tenant id version other i rows h)
          policy_id)
    | inr a ↦ rw a
  ],
)

-- A newer version than all that are current in its policy is the one that a query finds.
newest-front :
    (t i : Text) (r : Row) (rows : List Row)
    → is_current t i r ≡ true
    → All (λ q. is_current t i q ≡ true → older r q ≡ false) rows
    → newest t i (r ∷ rows) ≡ some r
unfolding newest
newest-front t i r rows c b = elim (Option-cases (newest t i rows)) [
  | inl e ↦ rw (c, e)
  | inr (q, e) ↦
      let (m, d, k) = newest-IsNewest t i rows q e in
      rw (c, e) (ground (arith, All-In _ rows b m d))
]

current_self :
    (tenant : Text) (r : Row)
    → r.tenant_id ≡ tenant
    → r.deprecated ≡ false
    → is_current tenant r.policy_id r ≡ true
unfolding is_current
current_self tenant r p d = ground (arith, text_eq_iff r.tenant_id tenant, text_eq_refl r.policy_id)

-- The reference is to a policy of the tenant: its identifier, behind the prefix of the tenant or
-- without one, normalizes to that of the policy.
abbrev pub Refers : Text → Text → Text → Type 0
Refers tenant id reference =
    ((split_policy_id reference ≡ none) × (normalize_policy_id (or_default reference) ≡ ok id))
    ⊎ ((part : Text) × (split_policy_id reference ≡ some (tenant, part))
        × (normalize_policy_id (or_default part) ≡ ok id))

resolve-Refers :
    (tenant id reference : Text) (rows : List Row)
    → Refers tenant id reference
    → resolve tenant reference true rows ≡ resolve_canonical tenant id true rows
unfolding resolve resolve_id
resolve-Refers tenant id reference rows (inl (plain, n)) =
    rw (plain, resolve) (rw (n, resolve_id) refl)
resolve-Refers tenant id reference rows (inr (part, split, n)) =
    rw (split, resolve) (rw (text_eq_refl tenant) (rw (n, resolve_id) refl))

-- In the rows that `create_policy` leaves, a version that it accepts, and than which none of its
-- policy's versions that are not deprecated is newer, is what Resolve finds when its query is
-- answered, whichever reference the tenant uses for the policy: its identifier in a spelling that
-- normalizes to it, an empty one standing for the default policy, behind the tenant's prefix or
-- without one.
pub resolve-create :
    (tenant reference : Text) (authored : Authored) (now : ℕ) (rows rows' : List Row) (r : Row)
    → create_policy tenant authored now true rows ≡ (ok r, rows')
    → Bounds tenant r.policy_id r rows
    → Refers tenant r.policy_id reference
    → resolve tenant reference true rows' ≡ ok r.schema
unfolding resolve_canonical
resolve-create tenant reference authored now rows rows' r h b refers =
    elim (create-Created tenant authored now true rows) [
      | inl (x, e) ↦ cc (h, e)
      | inr (q, p, d, f, e) ↦
          let same : q ≡ r = cc (h, e) in
          let after : rows' ≡ r ∷ rows = cc (h, e) in
          let current : is_current tenant r.policy_id r ≡ true =
            subst (λ x. is_current tenant x.policy_id x ≡ true) same (current_self tenant q p d) in
          let newest_one : newest tenant r.policy_id rows' ≡ some r =
            rw after (newest-front tenant r.policy_id r rows current b) in
          resolve-Refers tenant r.policy_id reference rows' refers ∙ rw newest_one refl
    ]
