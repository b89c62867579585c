-- ===== src/Base/Strconv.antt =====
-- The functions of Go's `strconv` and `net` that the program uses.
use thingsflow.Base.Tests.{leb, ltb, ◌==◌, if◌then◌else◌}
use thingsflow.Base.Lists.{take, drop}
use thingsflow.Base.Text.{Text}
use Prim.Native.Nat.{ℕ, zero, suc, ◌+◌, ◌-◌, ◌*◌, ◌/◌, ◌%◌, ◌^◌}
use mathlib.Core.Bool.{Bool, true, false, not, ◌&&◌, ◌||◌}
use mathlib.Core.List.{[], ◌∷◌}
use mathlib.Core.Option.{Option, none, some}

-- The value of a run of decimal digits, after the value read so far.
unfoldable pub read_digits : ℕ → Text → Option ℕ
read_digits acc [] = some acc
read_digits acc (c ∷ s) = elim (leb 48 c && leb c 57) [
  | true ↦ read_digits (acc * 10 + (c - 48)) s
  | false ↦ none
]

-- A run of at least one digit whose value fits an `int` of 64 bits and is positive.
unfoldable pub read_positive : Text → Option ℕ
unfolding read_digits
read_positive [] = none
read_positive (c ∷ s) = in_range (read_digits 0 (c ∷ s))
  where
    in_range : Option ℕ → Option ℕ
    in_range none = none
    in_range (some v) = if ltb 0 v && ltb v (2 ^ 63) then some v else none

-- The value `v` of `if v, err := strconv.Atoi(s); err == nil && v > 0`: one sign may stand in
-- front, and behind `-` no value is positive.
unfoldable pub atoi_positive : Text → Option ℕ
unfolding read_positive
atoi_positive [] = none
atoi_positive (c ∷ s) =
    if c == 43 then read_positive s else if c == 45 then none else read_positive (c ∷ s)

-- The decimal digits of a number, in front of those below them; one digit for each unit of fuel.
unfoldable pub itoa_from : ℕ → ℕ → Text → Text
itoa_from zero n acc = acc
itoa_from (suc f) n acc =
    let low = 48 + n % 10 in
    let rest = itoa_from f (n / 10) (low ∷ acc) in if n / 10 == 0 then low ∷ acc else rest

-- `strconv.Itoa` at a natural number.
unfoldable pub itoa : ℕ → Text
unfolding itoa_from
itoa n = itoa_from (n + 1) n []

-- The index of the first occurrence of a code point, `strings.IndexByte`.
unfoldable pub index_of : ℕ → Text → Option ℕ
index_of c [] = none
index_of c (d ∷ s) = if d == c then some 0 else next (index_of c s)
  where
    next : Option ℕ → Option ℕ
    next none = none
    next (some i) = some (suc i)

-- The index of the last occurrence.
unfoldable pub last_index_of : ℕ → Text → Option ℕ
last_index_of c [] = none
last_index_of c (d ∷ s) = next (last_index_of c s)
  where
    next : Option ℕ → Option ℕ
    next none = if d == c then some 0 else none
    next (some i) = some (suc i)

unfoldable pub holds : ℕ → Text → Bool
holds c [] = false
holds c (d ∷ s) = d == c || holds c s

-- `[host]:port`, with `i` the index of the last colon: the bracket closes right before it, and no
-- further bracket stands before or after.
unfoldable pub split_bracketed : Text → ℕ → Option Text
unfolding index_of holds
split_bracketed s i = closed (index_of 93 s)
  where
    closed : Option ℕ → Option Text
    closed none = none
    closed (some e) =
        if e + 1 == i && not (holds 91 (drop 1 s)) && not (holds 93 (drop (e + 1) s))
        then some (drop 1 (take e s))
        else none

-- `host:port`: the host has no colon, and no bracket stands anywhere.
unfoldable pub split_plain : Text → ℕ → Option Text
unfolding holds
split_plain s i =
    let host = take i s in if holds 58 host || holds 91 s || holds 93 s then none else some host

-- The host that `net.SplitHostPort` returns, or `none` for an error.
unfoldable pub split_host : Text → Option Text
unfolding last_index_of split_bracketed split_plain
split_host [] = none
split_host (c ∷ s) = at (last_index_of 58 (c ∷ s))
  where
    at : Option ℕ → Option Text
    at none = none
    at (some i) = if c == 91 then split_bracketed (c ∷ s) i else split_plain (c ∷ s) i
