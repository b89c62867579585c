-- ===== src/Policy/Store.antt =====
-- flow-core/internal/policy/store.go: the versioned catalog of the tenants' policies. A row holds
-- the values that its JSON columns encode, and the table is the list of its rows.
pub mod Resolve
pub mod Versions
pub mod Selection
mod Tests
use thingsflow.Base.{
  ℕ, List, [], ◌∷◌, ◌++◌, Bool, true, false, not, ◌&&◌, ◌||◌, Option, none, some, ltb, ◌==◌,
  if◌then◌else◌,
}
use thingsflow.Base.Text.{Text, codes, text_eq, split, has_prefix, trim_prefix}
use thingsflow.Base.Strconv.{read_digits}
use thingsflow.Base.Result.{Result, ok, err}
use thingsflow.Policy.Lexical.{normalize_policy_id}
use thingsflow.Policy.Authorize.{DerivedPolicy}
use thingsflow.Policy.Normalize.{Policy, PolicyError, Authored, normalize}

pub data StoreError : Type 0 where
  conflict not_found forbidden database_error : StoreError
  invalid_policy : PolicyError → StoreError

-- A row of the table `policy`.
pub record Row : Type 0 where
  pub tenant_id : Text
  pub policy_id : Text
  pub version : Text
  pub definition : Policy
  pub schema : DerivedPolicy
  pub deprecated : Bool
  pub created_time : ℕ
  pub updated_time : ℕ

-- The condition on the primary key.
unfoldable pub has_key : Text → Text → Text → Row → Bool
has_key tenant id version r =
    text_eq r.tenant_id tenant && text_eq r.policy_id id && text_eq r.version version

unfoldable pub find_row : Text → Text → Text → List Row → Option Row
find_row tenant id version [] = none
find_row tenant id version (r ∷ rows) =
    if has_key tenant id version r then some r else find_row tenant id version rows

-- The insertion of a normalized policy; `answered` tells whether the database executes it.
unfoldable pub insert :
    Text → ℕ → Bool → List Row → Policy × DerivedPolicy → Result StoreError Row × List Row
unfolding find_row
insert tenant now answered rows (p, d) =
    let row : Row = record {
      tenant_id = tenant;
      policy_id = p.policy_id;
      version = p.version;
      definition = p;
      schema = d;
      deprecated = false;
      created_time = now;
      updated_time = now;
    } in
    if not answered
    then (err database_error, rows)
    else elim (find_row tenant p.policy_id p.version rows) [
      | some r ↦ (err conflict, rows)
      | none ↦ (ok row, row ∷ rows)
    ]

-- `Create`
unfoldable pub create_policy :
    Text → Authored → ℕ → Bool → List Row → Result StoreError Row × List Row
unfolding insert
create_policy tenant authored now answered rows = elim (normalize authored) [
  | err e ↦ (err (invalid_policy e), rows)
  | ok out ↦ insert tenant now answered rows out
]

-- What `scanRecord` makes of the row that a statement returned.
unfoldable pub scanned : Bool → Option Row → Result StoreError Row
scanned false r = err database_error
scanned true none = err not_found
scanned true (some r) = ok r

-- `Get`
unfoldable pub get_policy : Text → Text → Text → Bool → List Row → Result StoreError Row
unfolding find_row scanned
get_policy tenant id version answered rows = scanned answered (find_row tenant id version rows)

abbrev pub deprecated_row : ℕ → Row → Row
deprecated_row now r = record r {
  deprecated = true;
  updated_time = if r.deprecated then r.updated_time else now;
}

unfoldable pub deprecate_rows : Text → Text → Text → ℕ → List Row → List Row
unfolding has_key
deprecate_rows tenant id version now [] = []
deprecate_rows tenant id version now (r ∷ rows) =
    (if has_key tenant id version r then deprecated_row now r else r)
    ∷ deprecate_rows tenant id version now rows

-- `Deprecate`
unfoldable pub deprecate :
    Text → Text → Text → ℕ → Bool → List Row → Result StoreError Row × List Row
unfolding deprecate_rows find_row scanned
deprecate tenant id version now answered rows =
    let after = if answered then deprecate_rows tenant id version now rows else rows in
    (scanned answered (find_row tenant id version after), after)

abbrev pub default_policy_id : Text
default_policy_id = codes "default"

-- `SplitPolicyID`: the tenant and the policy of `tenant:<tid>[:<pid>]`.
unfoldable pub split_tenant : Text → Text × Text
split_tenant [] = ([], [])
split_tenant (c ∷ s) =
    let (tenant, id) = split_tenant s in if c == 58 then ([], s) else (c ∷ tenant, id)

abbrev pub or_default : Text → Text
or_default id = if text_eq id [] then default_policy_id else id

unfoldable pub split_policy_id : Text → Option (Text × Text)
unfolding has_prefix trim_prefix split_tenant
split_policy_id policy_id =
    let (tenant, id) = split_tenant (trim_prefix policy_id (codes "tenant:")) in
    if has_prefix policy_id (codes "tenant:") then some (tenant, or_default id) else none

-- A component of `string_to_array(version, '.')::int[]`; the versions of the rows have passed
-- `validateVersion`.
unfoldable pub to_number : Text → ℕ
to_number s = elim (read_digits 0 s) [ none ↦ 0 | some n ↦ n ]

unfoldable pub numbers : List Text → List ℕ
numbers [] = []
numbers (s ∷ l) = to_number s ∷ numbers l

-- The order of arrays: the first difference decides, then the length.
unfoldable pub array_lt : List ℕ → List ℕ → Bool
array_lt [] [] = false
array_lt [] (b ∷ k) = true
array_lt (a ∷ l) [] = false
array_lt (a ∷ l) (b ∷ k) = ltb a b || (a == b && array_lt l k)

unfoldable pub older : Row → Row → Bool
older r q = array_lt (numbers (split 46 r.version)) (numbers (split 46 q.version))

unfoldable pub is_current : Text → Text → Row → Bool
is_current tenant id r = text_eq r.tenant_id tenant && text_eq r.policy_id id && not r.deprecated

abbrev pub newer_of : Row → Option Row → Row
newer_of r none = r
newer_of r (some q) = if older r q then q else r

-- The row of rank 1 of the query of `Resolve`.
unfoldable pub newest : Text → Text → List Row → Option Row
newest tenant id [] = none
newest tenant id (r ∷ rows) =
    let rest = newest tenant id rows in
    if is_current tenant id r then some (newer_of r rest) else rest

unfoldable pub builtin_owner_policy : Text → DerivedPolicy
builtin_owner_policy tenant =
    let root = codes "thing:/" ++ tenant in
    record {
      policy_id = default_policy_id;
      version = codes "1.0.0";
      kind = codes "TWIN";
      subjects = (codes "tenant:" ++ tenant) ∷ [];
      resources = root ∷ (root ++ codes "/#") ∷ [];
      grants = (root, codes "READ" ∷ codes "WRITE" ∷ codes "DELETE" ∷ []) ∷ [];
      revokes = [];
      builtin = true;
    }

-- The rows of the canonical identifier, or the policy that stands in for the default.
unfoldable pub resolve_row : Text → Text → Option Row → Result StoreError DerivedPolicy
resolve_row tenant canonical (some r) = ok r.schema
resolve_row tenant canonical none =
    if text_eq canonical default_policy_id then ok (builtin_owner_policy tenant) else err not_found

unfoldable pub resolve_canonical : Text → Text → Bool → List Row → Result StoreError DerivedPolicy
unfolding resolve_row newest
resolve_canonical tenant canonical answered rows =
    if answered
    then resolve_row tenant canonical (newest tenant canonical rows)
    else err database_error

-- `Resolve` behind the check of the tenant.
unfoldable pub resolve_id : Text → Text → Bool → List Row → Result StoreError DerivedPolicy
unfolding resolve_canonical
resolve_id tenant id answered rows = elim (normalize_policy_id (or_default id)) [
  | err e ↦ err not_found
  | ok canonical ↦ resolve_canonical tenant canonical answered rows
]

-- `Resolve`
unfoldable pub resolve : Text → Text → Bool → List Row → Result StoreError DerivedPolicy
unfolding resolve_id
resolve tenant policy_id answered rows = elim (split_policy_id policy_id) [
  | none ↦ resolve_id tenant policy_id answered rows
  | some (owner, id) ↦
      if text_eq owner tenant then resolve_id tenant id answered rows else err forbidden
]
