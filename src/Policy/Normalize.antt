-- ===== src/Policy/Normalize.antt =====
-- `Normalize` of flow-core/internal/policy/model.go: the checks on an authored policy, its normal
-- form and the derived policy. A set that a loop keeps beside a list of its elements is that list.
pub mod Rounds
pub mod Entries
pub mod Canonical
use thingsflow.Base.{
  List, [], ◌∷◌, ◌++◌, Bool, true, false, not, ◌&&◌, ◌||◌, Option, none, some, if◌then◌else◌,
}
use thingsflow.Base.Text.{Text, codes, text_eq, contains, trim_space, to_upper}
use thingsflow.Base.Dict.{Dict, put}
use thingsflow.Base.Sort.{sort_by}
use thingsflow.Base.Result.{Result, ok, err, ◌>>=◌, ◌>>◌, guard, each}
use thingsflow.Policy.Lexical.{
  IdError, VersionError, PathError, normalize_policy_id, validate_version, subject_ok,
  validate_resource_path,
}
use thingsflow.Policy.Authorize.{DerivedPolicy}

-- The label of an entry in an error.
pub data Label : Type 0 where
  grant revoke : Label

pub data PolicyError : Type 0 where
  empty_json invalid_json expected_object undecodable bad_kind no_subjects : PolicyError
  missing : Text → PolicyError
  bad_policy_id : IdError → PolicyError
  bad_version : VersionError → PolicyError
  bad_subject : Text → PolicyError
  bad_resource : Text → PathError → PolicyError
  bad_entry : Label → Text → PathError → PolicyError
  actions_required duplicate_entry : Label → Text → PolicyError
  unknown_action : Label → Text → Text → PolicyError

pub record Entry : Type 0 where
  pub resource : Text
  pub actions : List Text

pub record Policy : Type 0 where
  pub policy_id : Text
  pub version : Text
  pub kind : Text
  pub subjects : List Text
  pub resources : List Text
  pub grants : List Entry
  pub revokes : List Entry

-- The order of `sort.Strings`.
abbrev pub itself : Text → Text
itself s = s

-- One round of the loop over the subjects.
unfoldable pub add_subject : List Text → Text → Result PolicyError (List Text)
add_subject acc raw =
    let subject = trim_space raw in
    if text_eq subject []
    then ok acc
    else if not (subject_ok subject)
    then err (bad_subject subject)
    else if contains acc subject
    then ok acc
    else ok (acc ++ subject ∷ [])

unfoldable pub add_subjects : List Text → Result PolicyError (List Text)
add_subjects = each add_subject []

-- A result of a check that returns an error, or nothing.
unfoldable pub checked : {E : Type 0} → (E → PolicyError) → Option E → Result PolicyError (Unit {0})
checked wrap none = ok tt
checked wrap (some e) = err (wrap e)

-- One round of the loop over the resources.
unfoldable pub add_resource : List Text → Text → Result PolicyError (List Text)
add_resource acc raw = do
  let resource = trim_space raw
  checked (bad_resource resource) (validate_resource_path resource)
  if contains acc resource then ok acc else ok (acc ++ resource ∷ [])

unfoldable pub add_resources : List Text → Result PolicyError (List Text)
add_resources = each add_resource []

abbrev pub known_actions : List Text
known_actions = codes "READ" ∷ codes "WRITE" ∷ codes "DELETE" ∷ codes "*" ∷ []

-- One round of the loop of `normalizeActions`.
unfoldable pub add_action : Label → Text → List Text → Text → Result PolicyError (List Text)
add_action label resource acc raw =
    let action = to_upper (trim_space raw) in
    if not (contains known_actions action)
    then err (unknown_action label resource raw)
    else if contains acc action
    then ok acc
    else ok (acc ++ action ∷ [])

unfoldable pub normalize_actions : Label → Text → List Text → Result PolicyError (List Text)
normalize_actions label resource [] = err (actions_required label resource)
normalize_actions label resource (raw ∷ rest) = do
  out ← each (add_action label resource) [] (raw ∷ rest)
  ok (sort_by itself out)

unfoldable pub resources_of : List Entry → List Text
resources_of [] = []
resources_of (e ∷ es) = e.resource ∷ resources_of es

-- One round of the loop of `normalizeEntries`.
unfoldable pub add_entry : Label → List Entry → Entry → Result PolicyError (List Entry)
add_entry label acc entry = do
  let resource = trim_space entry.resource
  checked (bad_entry label resource) (validate_resource_path resource)
  actions ← normalize_actions label resource entry.actions
  guard (not (contains (resources_of acc) resource)) (duplicate_entry label resource)
  ok (acc ++ record { resource = resource; actions = actions } ∷ [])

abbrev pub entry_key : Entry → Text
entry_key e = e.resource

unfoldable pub normalize_entries : Label → List Entry → Result PolicyError (List Entry)
normalize_entries label entries = do
  normalized ← each (add_entry label) [] entries
  ok (sort_by entry_key normalized)

-- The loop of `entriesToMap` over what it has put into the map.
unfoldable pub entries_into : Dict (List Text) → List Entry → Dict (List Text)
unfolding put
entries_into m [] = m
entries_into m (e ∷ es) = entries_into (put m e.resource e.actions) es

unfoldable pub entries_to_map : List Entry → Dict (List Text)
unfolding entries_into
entries_to_map es = entries_into [] es

abbrev pub twin : Text
twin = codes "TWIN"

unfoldable pub derive : Policy → DerivedPolicy
unfolding entries_to_map
derive p = record {
  policy_id = p.policy_id;
  version = p.version;
  kind = p.kind;
  subjects = p.subjects;
  resources = p.resources;
  grants = entries_to_map p.grants;
  revokes = entries_to_map p.revokes;
  builtin = false;
}

unfoldable pub no_elements : List Text → Bool
no_elements [] = true
no_elements (x ∷ xs) = false

-- `fmt.Errorf("policyId: %w", err)`
unfoldable pub wrapped : Result IdError Text → Result PolicyError Text
wrapped (ok c) = ok c
wrapped (err e) = err (bad_policy_id e)

unfoldable pub default_kind : Text → Text
default_kind kind = if text_eq kind [] then twin else kind

-- `Normalize` behind the decoding of the JSON text.
unfoldable pub normalize_decoded : Policy → Result PolicyError (Policy × DerivedPolicy)
normalize_decoded p = do
  policy_id ← wrapped (normalize_policy_id p.policy_id)
  checked bad_version (validate_version p.version)
  let kind = default_kind p.kind
  guard (text_eq kind twin) bad_kind
  subjects ← add_subjects p.subjects
  guard (not (no_elements subjects)) no_subjects
  resources ← add_resources p.resources
  grants ← normalize_entries grant p.grants
  revokes ← normalize_entries revoke p.revokes
  let p' : Policy = record {
    policy_id = policy_id;
    version = p.version;
    kind = kind;
    subjects = sort_by itself subjects;
    resources = sort_by itself resources;
    grants = grants;
    revokes = revokes;
  }
  ok (p', derive p')

-- The JSON text of an authored policy, as the decoder reads it: blank, no JSON object, `null`, or an
-- object, with the presence of the two required keys and the policy, if it decodes to one.
pub data Authored : Type 0 where
  blank no_object null : Authored
  object : Bool → Bool → Option Policy → Authored

unfoldable pub normalize : Authored → Result PolicyError (Policy × DerivedPolicy)
unfolding normalize_decoded
normalize blank = err empty_json
normalize no_object = err invalid_json
normalize null = err expected_object
normalize (object has_id has_version decoded) = do
  guard has_id (missing (codes "policyId"))
  guard has_version (missing (codes "version"))
  elim decoded [ none ↦ err undecodable | some p ↦ normalize_decoded p ]
