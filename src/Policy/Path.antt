-- ===== src/Policy/Path.antt =====
-- `ResourcePath` and `matchResource` of flow-core/internal/policy/authorize.go.
pub mod Covers
use thingsflow.Base.{
  ℕ, suc, ◌+◌, List, [], ◌∷◌, ◌++◌, Bool, true, false, not, ◌&&◌, Option, none, some, ◌==◌,
  if◌then◌else◌, length,
}
use thingsflow.Base.Text.{Text, codes, text_eq, split, join, trim_prefix, trim_space, to_upper}

abbrev pub hash : Text
hash = codes "#"

abbrev pub star : Text
star = codes "*"

abbrev pub thing : Text
thing = codes "thing:/"

-- The path of a twin resource.
unfoldable pub resource_path : Text → Text → Text → List Text → Text
unfolding join to_upper trim_space
resource_path tenant entity_type entity suffix =
    join (codes "/")
      ((codes "thing:" ∷ tenant ∷ to_upper (trim_space entity_type) ∷ entity ∷ []) ++ suffix)

-- How the loop over the segments of a pattern ends: by a return, or at the end of the pattern.
pub data Scan : Type 0 where
  found : ℕ → Scan
  missed : Scan
  consumed : Scan

-- The loop, at index `i`, over what is left of the pattern and of the resource.
unfoldable pub scan : List Text → List Text → ℕ → Scan
scan [] rs i = consumed
scan (p ∷ ps) [] i = if text_eq p hash then found (i + 1) else missed
scan (p ∷ ps) (r ∷ rs) i =
    let rest = scan ps rs (i + 1) in
    if text_eq p hash
    then found (i + 1)
    else if text_eq p star
    then rest
    else if text_eq p r
    then rest
    else missed

-- The test on the last segment of the pattern.
unfoldable pub ends_star : List Text → Bool
ends_star [] = false
ends_star (p ∷ []) = text_eq p star
ends_star (p ∷ q ∷ ps) = ends_star (q ∷ ps)

-- What `matchResource` returns behind the loop.
unfoldable pub verdict : List Text → List Text → Scan → Option ℕ
unfolding ends_star
verdict ps rs (found d) = some d
verdict ps rs missed = none
verdict ps rs consumed =
    if ends_star ps && not (length rs == length ps) then none else some (length ps)

unfoldable pub match_segments : List Text → List Text → Option ℕ
unfolding scan verdict
match_segments ps rs = verdict ps rs (scan ps rs 0)

-- The segments of a path behind `thing:/`.
unfoldable pub segments : Text → List Text
unfolding split trim_prefix
segments path = split 47 (trim_prefix path thing)

-- The depth of the pattern, if it matches the resource.
unfoldable pub match_resource : Text → Text → Option ℕ
unfolding segments match_segments
match_resource pattern_ resource = match_segments (segments pattern_) (segments resource)
