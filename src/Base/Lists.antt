-- ===== src/Base/Lists.antt =====
-- Lists measured by native numbers, a membership that is taken apart by clauses, and the
-- predicates that the components share.
use Prim.Native.Nat.{ℕ, zero, suc, ◌+◌}
use mathlib.Core.Path.{◌≡◌, refl, sym, ap, subst}
use mathlib.Core.Logic.{◌⊎◌, inl, inr}
use mathlib.Core.List.{List, [], ◌∷◌, ◌++◌}
use mathlib.Core.Option.{Option, none, some}
use native.Mathlib.Omega.{arith}

module _ {ℓ} {A : Type ℓ} where
  abbrev pub length : List A → ℕ
  length [] = 0
  length (x ∷ xs) = suc (length xs)

  abbrev pub get_elem? : List A → ℕ → Option A
  get_elem? [] i = none
  get_elem? (x ∷ xs) zero = some x
  get_elem? (x ∷ xs) (suc i) = get_elem? xs i

  pub length-append : (xs ys : List A) → length (xs ++ ys) ≡ length xs + length ys
  length-append [] ys = omega arith
  length-append (x ∷ xs) ys = omega (arith, length-append xs ys)

  -- An index counted past the first list falls into the second.
  pub get_elem?-append :
      (xs ys : List A) (i j : ℕ) → i ≡ length xs + j → get_elem? (xs ++ ys) i ≡ get_elem? ys j
  get_elem?-append [] ys i j e = ap (get_elem? ys) (omega arith)
  get_elem?-append (x ∷ xs) ys zero j e = absurd (omega arith)
  get_elem?-append (x ∷ xs) ys (suc i) j e = get_elem?-append xs ys i j (omega arith)

-- `Any P l`: some element of `l` satisfies `P`.
abbrev pub Any {ℓ} : {A : Type ℓ} → (A → Type 0) → List A → Type 0
Any P [] = ⊥
Any P (x ∷ xs) = P x ⊎ Any P xs

-- `All P l`: every element of `l` satisfies `P`.
abbrev pub All {ℓ} : {A : Type ℓ} → (A → Type 0) → List A → Type 0
All P [] = Unit
All P (x ∷ xs) = P x × All P xs

-- `a` is an element of `l`.
abbrev pub In : {A : Type 0} → A → List A → Type 0
In a l = Any (λ x. a ≡ x) l

-- No element stands twice.
abbrev pub NoDup : {A : Type 0} → List A → Type 0
NoDup [] = Unit
NoDup (x ∷ xs) = (¬ In x xs) × NoDup xs

module _ {ℓ} {A : Type ℓ} where
  pub Any-map : (P Q : A → Type 0) (l : List A) → ((x : A) → P x → Q x) → Any P l → Any Q l
  Any-map P Q (x ∷ xs) f (inl h) = inl (f x h)
  Any-map P Q (x ∷ xs) f (inr h) = inr (Any-map P Q xs f h)
  Any-map P Q [] f h = elim h [ ]

  pub All-map : (P Q : A → Type 0) (l : List A) → ((x : A) → P x → Q x) → All P l → All Q l
  All-map P Q [] f h = tt
  All-map P Q (x ∷ xs) f h = (f x h.0, All-map P Q xs f h.1)

pub All-In : {A : Type 0} (P : A → Type 0) (l : List A) {a : A} → All P l → In a l → P a
All-In P (x ∷ xs) h (inl e) = subst P (sym e) h.0
All-In P (x ∷ xs) h (inr m) = All-In P xs h.1 m
All-In P [] h m = elim m [ ]

pub In-All : {A : Type 0} (P : A → Type 0) (l : List A) → ((a : A) → In a l → P a) → All P l
In-All P [] f = tt
In-All P (x ∷ xs) f = (f x (inl refl), In-All P xs (λ a m. f a (inr m)))

pub Any-In : {A : Type 0} (P : A → Type 0) (l : List A) → Any P l → (a : A) × In a l × P a
Any-In P (x ∷ xs) (inl h) = (x, inl refl, h)
Any-In P (x ∷ xs) (inr h) = let (a, m, p) = Any-In P xs h in (a, inr m, p)
Any-In P [] h = elim h [ ]

pub In-Any : {A : Type 0} (P : A → Type 0) (l : List A) {a : A} → In a l → P a → Any P l
In-Any P (x ∷ xs) (inl e) p = inl (subst P e p)
In-Any P (x ∷ xs) (inr m) p = inr (In-Any P xs m p)
In-Any P [] m p = elim m [ ]

module _ {ℓ} {A : Type ℓ} where
  abbrev pub take : ℕ → List A → List A
  take zero xs = []
  take (suc n) [] = []
  take (suc n) (x ∷ xs) = x ∷ take n xs

  abbrev pub drop : ℕ → List A → List A
  drop zero xs = xs
  drop (suc n) [] = []
  drop (suc n) (x ∷ xs) = drop n xs
