-- ===== src/Policy/Authorize.antt =====
-- `SubjectForClaims` and `Authorize` of flow-core/internal/policy/authorize.go, over the
-- `DerivedPolicy` of model.go.
pub mod Decision
pub mod Order
use thingsflow.Base.{
  ℕ, List, [], ◌∷◌, Bool, true, false, ◌&&◌, ◌||◌, Option, none, some, ltb, ◌==◌, if◌then◌else◌,
  ◌++◌,
}
use thingsflow.Base.Text.{Text, codes, text_eq, trim_space, to_upper}
use thingsflow.Base.Dict.{Dict}
use thingsflow.Policy.Path.{star, match_resource}

-- The normalized policy; a Go map is the list of its entries, in the order of an iteration.
pub record DerivedPolicy : Type 0 where
  pub policy_id : Text
  pub version : Text
  pub kind : Text
  pub subjects : List Text
  pub resources : List Text
  pub grants : Dict (List Text)
  pub revokes : Dict (List Text)
  pub builtin : Bool

-- What is read of the claims: an element of `scopes` that is a string, or another value; a claim
-- that is absent or no string reads as the empty text.
pub data Scope : Type 0 where
  text : Text → Scope
  other : Scope

pub record Claims : Type 0 where
  pub scopes : List Scope
  pub tenant_id : Text
  pub user_id : Text

abbrev pub sys_admin : Text
sys_admin = codes "SYS_ADMIN"

unfoldable pub has_sys_admin : List Scope → Bool
has_sys_admin [] = false
has_sys_admin (text value ∷ rest) = text_eq value sys_admin || has_sys_admin rest
has_sys_admin (other ∷ rest) = has_sys_admin rest

unfoldable pub subject_for_claims : Claims → Text
unfolding has_sys_admin
subject_for_claims c =
    if has_sys_admin c.scopes
    then sys_admin
    else if text_eq c.tenant_id []
    then if text_eq c.user_id [] then [] else codes "user:" ++ c.user_id
    else codes "tenant:" ++ c.tenant_id

unfoldable pub action_covered : List Text → Text → Bool
action_covered [] action = false
action_covered (candidate ∷ rest) action =
    (text_eq candidate star || text_eq candidate action) || action_covered rest action

unfoldable pub bound_by : Text → List Text → Bool
bound_by subject [] = false
bound_by subject (bound ∷ rest) =
    (text_eq bound star || text_eq bound subject) || bound_by subject rest

unfoldable pub subject_matches : Text → List Text → Bool
unfolding bound_by
subject_matches subject subjects = if text_eq subject [] then false else bound_by subject subjects

-- `depth > deepest`, where `none` is the start value -1.
unfoldable pub deeper : Option ℕ → Option ℕ → Option ℕ
deeper none deepest = deepest
deeper (some depth) none = some depth
deeper (some depth) (some best) = if ltb best depth then some depth else some best

-- The loop that raises `deepest` over the paths of a map.
unfoldable pub deepest_from : Text → Option ℕ → Dict (List Text) → Option ℕ
unfolding deeper
deepest_from resource deepest [] = deepest
deepest_from resource deepest ((path, actions) ∷ rest) =
    deepest_from resource (deeper (match_resource path resource) deepest) rest

-- `depth, ok := matchResource(path, resource); ok && depth == deepest`
unfoldable pub at_depth : Option ℕ → ℕ → Bool
at_depth none deepest = false
at_depth (some depth) deepest = depth == deepest

-- The loop that looks for an entry at the deepest level that covers the action.
unfoldable pub covering : Text → Text → ℕ → Dict (List Text) → Bool
unfolding at_depth action_covered
covering resource action deepest [] = false
covering resource action deepest ((path, actions) ∷ rest) =
    (at_depth (match_resource path resource) deepest && action_covered actions action)
    || covering resource action deepest rest

unfoldable pub decide_at : DerivedPolicy → Text → Text → Option ℕ → Bool
unfolding covering
decide_at doc resource action none = false
decide_at doc resource action (some deepest) =
    if covering resource action deepest doc.revokes
    then false
    else covering resource action deepest doc.grants

unfoldable pub authorize : Text → DerivedPolicy → Text → Text → Bool
unfolding subject_matches deepest_from decide_at
authorize subject doc resource action =
    if subject_matches subject doc.subjects
    then decide_at doc resource (to_upper (trim_space action))
        (deepest_from resource (deepest_from resource none doc.grants) doc.revokes)
    else false
