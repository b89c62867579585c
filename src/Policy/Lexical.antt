-- ===== src/Policy/Lexical.antt =====
-- The lexical checks of flow-core/internal/policy/model.go: identifiers, versions, subjects and
-- segments of resource paths. A regular expression is written out as a test.
pub mod Ident
use thingsflow.Base.{
  ℕ, suc, ◌+◌, ◌*◌, ◌^◌, List, [], ◌∷◌, ◌++◌, Bool, true, false, not, ◌&&◌, ◌||◌, Option, none,
  some, ltb, leb, ◌==◌, if◌then◌else◌, length,
}
use thingsflow.Base.Text.{
  Text, codes, text_eq, contains, split, trim, trim_space, trim_prefix, has_prefix, to_upper,
  to_lower,
}
use thingsflow.Base.Strconv.{read_digits}
use thingsflow.Base.Result.{Result, ok, err, ◌>>=◌, ◌>>◌, guard}
use thingsflow.Policy.Path.{thing}

pub data IdError : Type 0 where
  empty_identifier too_long : IdError

pub data VersionError : Type 0 where
  bad_shape too_large : VersionError

pub data PathError : Type 0 where
  no_thing_prefix empty_path empty_segment : PathError
  invalid_segment : Text → PathError

abbrev pub max_policy_id_bytes : ℕ
max_policy_id_bytes = 255

-- `[a-z0-9_]`
unfoldable pub id_char : ℕ → Bool
id_char c = (leb 97 c && leb c 122) || (leb 48 c && leb c 57) || (c == 95)

abbrev pub underscore : ℕ → Bool
underscore c = c == 95

-- `policyIDInvalidRE.ReplaceAllString(s, "_")`: each run of other characters becomes one `_`; the
-- flag tells whether the last character belonged to such a run.
unfoldable pub squash : Bool → Text → Text
unfolding id_char
squash run [] = []
squash run (c ∷ s) =
    let rest = squash (not (id_char c)) s in
    if id_char c then c ∷ rest else if run then rest else 95 ∷ rest

unfoldable pub canonical_policy_id : Text → Text
unfolding to_lower squash trim
canonical_policy_id raw = trim underscore (squash false (to_lower raw))

unfoldable pub normalize_policy_id : Text → Result IdError Text
normalize_policy_id raw =
    let canonical = canonical_policy_id raw in
    if text_eq canonical [] || text_eq (trim underscore canonical) []
    then err empty_identifier
    else if ltb max_policy_id_bytes (length canonical)
    then err too_long
    else ok canonical

unfoldable pub all_digits : Text → Bool
all_digits [] = true
all_digits (c ∷ s) = (leb 48 c && leb c 57) && all_digits s

-- `0|[1-9][0-9]{0,9}`
unfoldable pub component_shape : Text → Bool
unfolding all_digits
component_shape [] = false
component_shape (c ∷ s) =
    (text_eq (c ∷ s) (codes "0")) || ((leb 49 c && leb c 57) && (all_digits s && leb (length s) 9))

-- `strconv.ParseInt(component, 10, 32)` succeeds.
unfoldable pub fits_int32 : Text → Bool
unfolding read_digits
fits_int32 s = elim (read_digits 0 s) [ none ↦ false | some v ↦ ltb v (2 ^ 31) ]

-- The components that `versionRE` takes apart.
unfoldable pub version_parts : List Text → Option VersionError
unfolding component_shape fits_int32
version_parts (a ∷ b ∷ c ∷ []) =
    if component_shape a && component_shape b && component_shape c
    then if fits_int32 a && fits_int32 b && fits_int32 c then none else some too_large
    else some bad_shape
version_parts _ = some bad_shape

-- The error of `validateVersion`, if there is one.
unfoldable pub validate_version : Text → Option VersionError
unfolding split version_parts
validate_version version = version_parts (split 46 version)

-- `[A-Za-z0-9_.-]`, which both patterns of characters hold.
unfoldable pub name_char : ℕ → Bool
name_char c =
    (leb 65 c && leb c 90)
    || (leb 97 c && leb c 122)
    || (leb 48 c && leb c 57)
    || (c == 95)
    || (c == 46)
    || (c == 45)

unfoldable pub all_chars : (ℕ → Bool) → Text → Bool
all_chars p [] = true
all_chars p (c ∷ s) = p c && all_chars p s

-- `resourceSegmentRE` on a segment that is not empty.
unfoldable pub segment_ok : Text → Bool
unfolding name_char all_chars
segment_ok s = all_chars (λ c. name_char c || (c == 42) || (c == 35)) s

-- What follows the colon of a subject.
unfoldable pub subject_name_ok : Text → Bool
unfolding name_char all_chars
subject_name_ok s = not (text_eq s []) && all_chars (λ c. name_char c || (c == 58) || (c == 64)) s

unfoldable pub named : Text → Text → Bool
unfolding has_prefix trim_prefix subject_name_ok
named prefix s = has_prefix s prefix && subject_name_ok (trim_prefix s prefix)

-- `subjectRE`
unfoldable pub subject_ok : Text → Bool
unfolding named
subject_ok s =
    named (codes "tenant:") s
    || named (codes "user:") s
    || named (codes "role:") s
    || text_eq s (codes "*")

unfoldable pub validate_segments : List Text → Option PathError
unfolding segment_ok
validate_segments [] = none
validate_segments (s ∷ rest) =
    let later = validate_segments rest in
    if text_eq s []
    then some empty_segment
    else if segment_ok s
    then later
    else some (invalid_segment s)

-- The error of `validateResourcePath`, if there is one.
unfoldable pub validate_resource_path : Text → Option PathError
unfolding has_prefix trim_prefix split validate_segments
validate_resource_path resource =
    let rest = trim_prefix resource thing in
    if not (has_prefix resource thing)
    then some no_thing_prefix
    else if text_eq rest []
    then some empty_path
    else validate_segments (split 47 rest)
