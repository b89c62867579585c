-- ===== src/Policy/Store/Versions.antt =====
-- The versions of a policy in the catalog of flow-core/internal/policy/store.go: what `Create` and
-- `Deprecate` leave behind.
use thingsflow.Base.{
  ℕ, List, [], ◌∷◌, ◌≡◌, refl, Bool, true, false, none, arith, Bool-cases, Option-cases, inl, inr,
  ◌⊎◌, All, All-map, Any, if◌then◌else◌,
}
use thingsflow.Base.Text.{Text, text_eq_iff}
use thingsflow.Base.Result.{Result, ok, err}
use thingsflow.Policy.Authorize.{DerivedPolicy}
use thingsflow.Policy.Normalize.{Policy, PolicyError, Authored, normalize}
use thingsflow.Policy.Store.{
  Row, StoreError, conflict, database_error, invalid_policy, has_key, find_row, insert,
  create_policy, deprecate_rows, deprecate, deprecated_row,
}

pub has_key_iff :
    (tenant id version : Text) (r : Row)
    → has_key tenant id version r ≡ true
    → (r.tenant_id ≡ tenant) × (r.policy_id ≡ id) × (r.version ≡ version)
unfolding has_key
has_key_iff tenant id version r h = (
  ground (arith, text_eq_iff r.tenant_id tenant),
  ground (arith, text_eq_iff r.policy_id id),
  ground (arith, text_eq_iff r.version version),
)

-- A creation fails and leaves the rows, or puts a new one in front.
abbrev pub Created : Text → List Row → Result StoreError Row × List Row → Type 0
Created tenant rows out =
    ((e : StoreError) × (out ≡ (err e, rows)))
    ⊎ ((r : Row) × (r.tenant_id ≡ tenant)
        × (r.deprecated ≡ false)
        × (find_row tenant r.policy_id r.version rows ≡ none)
        × (out ≡ (ok r, r ∷ rows)))

insert-Created :
    (tenant : Text) (now : ℕ) (answered : Bool) (rows : List Row) (p : Policy) (d : DerivedPolicy)
    → Created tenant rows (insert tenant now answered rows (p, d))
unfolding insert
insert-Created tenant now answered rows p d = elim (Bool-cases answered) [
  | inr a ↦ inl (database_error, rw a)
  | inl a ↦ elim (Option-cases (find_row tenant p.policy_id p.version rows)) [
    | inr (r, f) ↦ inl (conflict, rw (a, f))
    | inl f ↦ inr (
      record {
        tenant_id = tenant;
        policy_id = p.policy_id;
        version = p.version;
        definition = p;
        schema = d;
        deprecated = false;
        created_time = now;
        updated_time = now;
      },
      refl,
      refl,
      f,
      rw (a, f),
    )
  ]
]

pub create-Created :
    (tenant : Text) (authored : Authored) (now : ℕ) (answered : Bool) (rows : List Row)
    → Created tenant rows (create_policy tenant authored now answered rows)
unfolding create_policy
create-Created tenant authored now answered rows = go (normalize authored) refl
  where
    go :
        (n : Result PolicyError (Policy × DerivedPolicy))
        → normalize authored ≡ n
        → Created tenant rows (create_policy tenant authored now answered rows)
    go (err e) q = inl (invalid_policy e, rw (q, create_policy))
    go (ok (p, d)) q = rw (q, create_policy) (insert-Created tenant now answered rows p d)

-- The primary key: no two rows have the same tenant, identifier and version.
abbrev pub Unique : List Row → Type 0
Unique [] = Unit
Unique (r ∷ rows) = (find_row r.tenant_id r.policy_id r.version rows ≡ none) × Unique rows

find_row-deprecate_rows :
    (tenant id version t i v : Text) (now : ℕ) (rows : List Row)
    → find_row t i v rows ≡ none
    → find_row t i v (deprecate_rows tenant id version now rows) ≡ none
unfolding find_row deprecate_rows has_key
find_row-deprecate_rows tenant id version t i v now [] h = refl
find_row-deprecate_rows tenant id version t i v now (r ∷ rows) h =
    ground (arith, find_row-deprecate_rows tenant id version t i v now rows)

Unique-deprecate_rows :
    (tenant id version : Text) (now : ℕ) (rows : List Row)
    → Unique rows
    → Unique (deprecate_rows tenant id version now rows)
unfolding deprecate_rows
Unique-deprecate_rows tenant id version now [] u = tt
Unique-deprecate_rows tenant id version now (r ∷ rows) u =
    elim (Bool-cases (has_key tenant id version r)) [
      | inl e ↦ rw e (
        find_row-deprecate_rows tenant id version _ _ _ now rows u.0,
        Unique-deprecate_rows tenant id version now rows u.1,
      )
      | inr e ↦ rw e (
        find_row-deprecate_rows tenant id version _ _ _ now rows u.0,
        Unique-deprecate_rows tenant id version now rows u.1,
      )
    ]

-- The same version with the same content, deprecated if it was before.
abbrev pub Kept : Row → Row → Type 0
Kept r q =
    (q.tenant_id ≡ r.tenant_id)
    × (q.policy_id ≡ r.policy_id)
    × (q.version ≡ r.version)
    × (q.definition ≡ r.definition)
    × (q.schema ≡ r.schema)
    × (q.created_time ≡ r.created_time)
    × (r.deprecated ≡ true → q.deprecated ≡ true)

-- Every row has its successor among the others.
abbrev pub AllKept : List Row → List Row → Type 0
AllKept rows rows' = All (λ r. Any (Kept r) rows') rows

Kept-refl : (r : Row) → Kept r r
Kept-refl r = (refl, refl, refl, refl, refl, refl, (λ h. h))

AllKept-front : (rows rows' : List Row) (r : Row) → AllKept rows rows' → AllKept rows (r ∷ rows')
AllKept-front rows rows' r h = All-map _ _ rows (λ q k. inr k) h

AllKept-refl : (rows : List Row) → AllKept rows rows
AllKept-refl [] = tt
AllKept-refl (r ∷ rows) = (inl (Kept-refl r), AllKept-front rows rows r (AllKept-refl rows))

Kept-deprecated :
    (tenant id version : Text) (now : ℕ) (r : Row)
    → Kept r (if has_key tenant id version r then deprecated_row now r else r)
Kept-deprecated tenant id version now r = elim (Bool-cases (has_key tenant id version r)) [
  | inl e ↦ rw e (refl, refl, refl, refl, refl, refl, (λ h. refl))
  | inr e ↦ rw e (Kept-refl r)
]

AllKept-deprecate_rows :
    (tenant id version : Text) (now : ℕ) (rows : List Row)
    → AllKept rows (deprecate_rows tenant id version now rows)
unfolding deprecate_rows
AllKept-deprecate_rows tenant id version now [] = tt
AllKept-deprecate_rows tenant id version now (r ∷ rows) = (
  inl (Kept-deprecated tenant id version now r),
  AllKept-front rows _ (if has_key tenant id version r then deprecated_row now r else r)
      (AllKept-deprecate_rows tenant id version now rows),
)

create-Unique :
    (tenant : Text) (authored : Authored) (now : ℕ) (answered : Bool) (rows : List Row)
    → Unique rows
    → Unique (create_policy tenant authored now answered rows).1
      × AllKept rows (create_policy tenant authored now answered rows).1
create-Unique tenant authored now answered rows u =
    elim (create-Created tenant authored now answered rows) [
      | inl (x, e) ↦ rw e (u, AllKept-refl rows)
      | inr (r, p, d, f, e) ↦ rw e ((rw p f, u), AllKept-front rows rows r (AllKept-refl rows))
    ]

-- `create_policy` and `deprecate` keep every tenant, identifier and version at most once, and lose
-- or alter no stored version: its definition, schema and time of creation stay, and it stays
-- deprecated once it is. This holds whether the database answers or not.
pub operations-Unique :
    (tenant id version : Text) (authored : Authored) (now : ℕ) (answered : Bool) (rows : List Row)
    → Unique rows
    → (Unique (create_policy tenant authored now answered rows).1
        × AllKept rows (create_policy tenant authored now answered rows).1)
      × (Unique (deprecate tenant id version now answered rows).1
          × AllKept rows (deprecate tenant id version now answered rows).1)
unfolding deprecate
operations-Unique tenant id version authored now answered rows u = (
  create-Unique tenant authored now answered rows u,
  elim (Bool-cases answered) [
    | inl a ↦ rw a (
      Unique-deprecate_rows tenant id version now rows u,
      AllKept-deprecate_rows tenant id version now rows,
    )
    | inr a ↦ rw a (u, AllKept-refl rows)
  ],
)
