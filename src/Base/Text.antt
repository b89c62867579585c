-- ===== src/Base/Text.antt =====
-- Go strings as lists of code points, with the functions of the package `strings` that the
-- program uses. Go compares strings byte by byte; for UTF-8 that is the order of the code points.
use Prim.Native.Char.{code}
use thingsflow.Base.Tests.{==_iff, leb, ◌==◌, if◌then◌else◌, Bool-cases}
use thingsflow.Base.Lists.{In, All}
use Prim.Native.Nat.{ℕ, zero, suc, ◌+◌, ◌-◌}
use Prim.Native.String.{String}
use mathlib.Core.Path.{◌≡◌, refl}
use mathlib.Core.Logic.{◌≢◌, ◌↔◌, ◌⊎◌, inl, inr}
use mathlib.Core.Bool.{Bool, true, false, ◌&&◌, ◌||◌}
use mathlib.Core.List.{List, [], ◌∷◌, ◌++◌, map}
use native.Mathlib.Omega.{arith}

-- A string, as its code points.
abbrev pub Text : Type 0
Text = List ℕ

-- The code points of a literal.
abbrev pub codes : String → Text
codes String.[] = []
codes (String.◌∷◌ c s) = code c ∷ codes s

-- `a == b` on strings.
unfoldable pub text_eq : Text → Text → Bool
text_eq [] [] = true
text_eq [] (y ∷ ys) = false
text_eq (x ∷ xs) [] = false
text_eq (x ∷ xs) (y ∷ ys) = x == y && text_eq xs ys

pub text_eq_iff : (a b : Text) → (text_eq a b ≡ true) ↔ (a ≡ b)
unfolding text_eq
text_eq_iff [] [] = ((λ _. refl), λ _. refl)
text_eq_iff [] (y ∷ ys) = ((λ h. cc), λ h. cc)
text_eq_iff (x ∷ xs) [] = ((λ h. cc), λ h. cc)
text_eq_iff (x ∷ xs) (y ∷ ys) =
    ((λ h. ground (arith, text_eq_iff xs ys)), (λ h. ground (arith, text_eq_iff xs ys)))

pub text_eq_refl : (a : Text) → text_eq a a ≡ true
text_eq_refl a = (text_eq_iff a a).1 refl

pub text_eq_ne : (a b : Text) → a ≢ b → text_eq a b ≡ false
text_eq_ne a b h = elim (Bool-cases (text_eq a b)) [
  | inl e ↦ absurd (h ((text_eq_iff a b).0 e))
  | inr e ↦ e
]

-- Texts are told apart.
pub Text-cases : (a b : Text) → (a ≡ b) ⊎ (a ≢ b)
Text-cases a b = elim (Bool-cases (text_eq a b)) [
  | inl e ↦ inl ((text_eq_iff a b).0 e)
  | inr e ↦ inr (λ p. cc (e, (text_eq_iff a b).1 p))
]

-- `unicode.IsSpace`.
unfoldable pub is_space : ℕ → Bool
is_space c =
    (leb 9 c && leb c 13)
    || (c == 32)
    || (c == 0x85)
    || (c == 0xA0)
    || (c == 0x1680)
    || (leb 0x2000 c && leb c 0x200a)
    || (c == 0x2028)
    || (c == 0x2029)
    || (c == 0x202f)
    || (c == 0x205f)
    || (c == 0x3000)

-- Drops the leading code points that satisfy a test.
unfoldable pub trim_left : (ℕ → Bool) → Text → Text
trim_left p [] = []
trim_left p (c ∷ s) = let rest = trim_left p s in if p c then rest else c ∷ s

-- Puts a code point in front of a trimmed text: it goes too if nothing is left after it.
unfoldable pub keep_before : (ℕ → Bool) → ℕ → Text → Text
keep_before p c [] = if p c then [] else c ∷ []
keep_before p c (d ∷ r) = c ∷ d ∷ r

-- Drops the trailing code points that satisfy a test.
unfoldable pub trim_right : (ℕ → Bool) → Text → Text
unfolding keep_before
trim_right p [] = []
trim_right p (c ∷ s) = keep_before p c (trim_right p s)

-- `strings.TrimFunc`.
unfoldable pub trim : (ℕ → Bool) → Text → Text
unfolding trim_left trim_right
trim p s = trim_right p (trim_left p s)

-- `strings.TrimSpace`.
unfoldable pub trim_space : Text → Text
unfolding trim is_space
trim_space s = trim is_space s

-- `unicode.ToUpper`, exact on ASCII and on the code points that it takes into ASCII; it leaves
-- the others, where the program only compares the result with ASCII constants.
unfoldable pub upper : ℕ → ℕ
upper c =
    if leb 97 c && leb c 122
    then c - 32
    else if c == 0x131
    then 73
    else if c == 0x17f
    then 83
    else c

-- `unicode.ToLower`, in the same way.
unfoldable pub lower : ℕ → ℕ
lower c =
    if leb 65 c && leb c 90
    then c + 32
    else if c == 0x130
    then 105
    else if c == 0x212a
    then 107
    else c

-- `strings.ToUpper` and `strings.ToLower`.
unfoldable pub to_upper : Text → Text
unfolding upper
to_upper s = map upper s

unfoldable pub to_lower : Text → Text
unfolding lower
to_lower s = map lower s

-- Puts a code point in front of the first piece.
unfoldable pub prepend : ℕ → List Text → List Text
prepend c [] = (c ∷ []) ∷ []
prepend c (p ∷ ps) = (c ∷ p) ∷ ps

-- `strings.Split` at a separator of one code point: one piece more than separators.
unfoldable pub split : ℕ → Text → List Text
unfolding prepend
split sep [] = [] ∷ []
split sep (c ∷ s) = let rest = split sep s in if c == sep then [] ∷ rest else prepend c rest

-- `strings.Join` at a separator.
unfoldable pub join : Text → List Text → Text
join sep [] = []
join sep (p ∷ []) = p
join sep (p ∷ q ∷ ps) = p ++ (sep ++ join sep (q ∷ ps))

-- `strings.HasPrefix`.
unfoldable pub has_prefix : Text → Text → Bool
has_prefix s [] = true
has_prefix [] (c ∷ p) = false
has_prefix (d ∷ s) (c ∷ p) = d == c && has_prefix s p

-- What is left after as many code points as the prefix has.
unfoldable pub drop_prefix : Text → Text → Text
drop_prefix s [] = s
drop_prefix [] (c ∷ p) = []
drop_prefix (d ∷ s) (c ∷ p) = drop_prefix s p

-- `strings.TrimPrefix`.
unfoldable pub trim_prefix : Text → Text → Text
unfolding has_prefix drop_prefix
trim_prefix s p = if has_prefix s p then drop_prefix s p else s

-- `strings.HasSuffix`.
unfoldable pub has_suffix : Text → Text → Bool
has_suffix [] p = text_eq [] p
has_suffix (c ∷ s) p = text_eq (c ∷ s) p || has_suffix s p

-- `slices.Contains` on strings.
unfoldable pub contains : List Text → Text → Bool
contains [] a = false
contains (x ∷ xs) a = text_eq x a || contains xs a

pub contains_iff : (l : List Text) (a : Text) → (contains l a ≡ true) ↔ In a l
unfolding contains
contains_iff [] a = ((λ h. cc), λ h. elim h [ ])
contains_iff (x ∷ xs) a = (
  (λ h. ground (arith, text_eq_iff x a, contains_iff xs a)),
  (λ h. ground (arith, text_eq_iff x a, contains_iff xs a)),
)

-- No piece of a split holds the separator.
abbrev pub Free : ℕ → Text → Type 0
Free sep s = All (λ c. c ≢ sep) s

split-ne-nil : (sep : ℕ) (s : Text) → split sep s ≢ []
unfolding split
split-ne-nil sep [] = λ e. cc
split-ne-nil sep (c ∷ s) = elim (Bool-cases (c == sep)) [
  | inl e ↦ rw e (λ p. cc)
  | inr e ↦ rw e (prepend-ne-nil c (split sep s))
]
  where
    prepend-ne-nil : (d : ℕ) (ps : List Text) → prepend d ps ≢ []
    prepend-ne-nil d [] = λ e. cc
    prepend-ne-nil d (p ∷ ps) = λ e. cc

prepend-append : (c : ℕ) (ps qs : List Text) → ps ≢ [] → prepend c (ps ++ qs) ≡ prepend c ps ++ qs
unfolding prepend
prepend-append c [] qs h = absurd (h refl)
prepend-append c (p ∷ ps) qs h = refl

-- A separator between two texts separates their splits.
pub split-append : (sep : ℕ) (a b : Text) → split sep (a ++ sep ∷ b) ≡ split sep a ++ split sep b
unfolding split
split-append sep [] b = rw ((==_iff sep sep).1 refl)
split-append sep (c ∷ a) b = elim (Bool-cases (c == sep)) [
  | inl e ↦ rw (e, split-append sep a b)
  | inr e ↦ rw (e, split-append sep a b) (prepend-append c _ _ (split-ne-nil sep a))
]

-- `strings.SplitN` at a separator of one code point, into at most one piece more than `n`.
unfoldable pub split_n : ℕ → ℕ → Text → List Text
unfolding prepend
split_n zero sep s = s ∷ []
split_n (suc n) sep [] = [] ∷ []
split_n (suc n) sep (c ∷ s) = elim (c == sep) [
  | true ↦ [] ∷ split_n n sep s
  | false ↦ prepend c (split_n (suc n) sep s)
]

-- A text without the separator is the first piece.
pub split_n-append :
    (n sep : ℕ) (a b : Text) → Free sep a → split_n (suc n) sep (a ++ sep ∷ b) ≡ a ∷ split_n n sep b
unfolding split_n
split_n-append n sep [] b h = rw ((==_iff sep sep).1 refl, split_n)
split_n-append n sep (c ∷ a) b h = rw (==_ne c sep h.0, split_n) (rw (split_n-append n sep a b h.1))
  where
    ==_ne : (c d : ℕ) → c ≢ d → (c == d) ≡ false
    ==_ne c d q = ground arith
