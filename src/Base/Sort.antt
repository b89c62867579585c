-- ===== src/Base/Sort.antt =====
-- `sort.Strings`, and `sort.Slice` by a string: sorting by a key in the order of the code points.
use thingsflow.Base.Tests.{ltb, ◌==◌, if◌then◌else◌, Bool-cases}
use thingsflow.Base.Lists.{All, All-map}
use thingsflow.Base.Text.{Text}
use mathlib.Core.Path.{◌≡◌, refl}
use mathlib.Core.Logic.{inl, inr}
use mathlib.Core.Bool.{Bool, true, false, ◌&&◌, ◌||◌}
use mathlib.Core.List.{List, [], ◌∷◌}
use native.Mathlib.Omega.{arith}

-- `a <= b` on strings.
unfoldable pub text_leb : Text → Text → Bool
text_leb [] b = true
text_leb (x ∷ a) [] = false
text_leb (x ∷ a) (y ∷ b) = ltb x y || (x == y && text_leb a b)

pub text_leb_refl : (a : Text) → text_leb a a ≡ true
unfolding text_leb
text_leb_refl [] = refl
text_leb_refl (x ∷ a) = ground (arith, text_leb_refl a)

pub text_leb_trans :
    (a b c : Text) → text_leb a b ≡ true → text_leb b c ≡ true → text_leb a c ≡ true
unfolding text_leb
text_leb_trans [] b c h k = refl
text_leb_trans (x ∷ a) [] c h k = cc
text_leb_trans (x ∷ a) (y ∷ b) [] h k = cc
text_leb_trans (x ∷ a) (y ∷ b) (z ∷ c) h k = ground (arith, text_leb_trans a b c)

pub text_leb_total : (a b : Text) → text_leb a b ≡ false → text_leb b a ≡ true
unfolding text_leb
text_leb_total [] b h = cc
text_leb_total (x ∷ a) [] h = refl
text_leb_total (x ∷ a) (y ∷ b) h = ground (arith, text_leb_total a b)

pub text_leb_antisymm : (a b : Text) → text_leb a b ≡ true → text_leb b a ≡ true → a ≡ b
unfolding text_leb
text_leb_antisymm [] [] h k = refl
text_leb_antisymm [] (y ∷ b) h k = cc
text_leb_antisymm (x ∷ a) [] h k = cc
text_leb_antisymm (x ∷ a) (y ∷ b) h k = ground (arith, text_leb_antisymm a b)

module _ {ℓ} {A : Type ℓ} (key : A → Text) where
  unfoldable pub insert_by : A → List A → List A
  insert_by a [] = a ∷ []
  insert_by a (x ∷ xs) = if text_leb (key a) (key x) then a ∷ x ∷ xs else x ∷ insert_by a xs

  unfoldable pub sort_by : List A → List A
  unfolding insert_by
  sort_by [] = []
  sort_by (x ∷ xs) = insert_by x (sort_by xs)

  -- Every element's key is at most those behind it.
  abbrev pub Sorted : List A → Type 0
  Sorted [] = Unit
  Sorted (x ∷ xs) = All (λ y. text_leb (key x) (key y) ≡ true) xs × Sorted xs

  All-insert_by : (P : A → Type 0) (a : A) (xs : List A) → P a → All P xs → All P (insert_by a xs)
  unfolding insert_by
  All-insert_by P a [] p h = (p, tt)
  All-insert_by P a (x ∷ xs) p h = elim (Bool-cases (text_leb (key a) (key x))) [
    | inl e ↦ rw e (p, h)
    | inr e ↦ rw e (h.0, All-insert_by P a xs p h.1)
  ]

  insert_by-All : (P : A → Type 0) (a : A) (xs : List A) → All P (insert_by a xs) → P a × All P xs
  unfolding insert_by
  insert_by-All P a [] h = h
  insert_by-All P a (x ∷ xs) h = elim (Bool-cases (text_leb (key a) (key x))) [
    | inl e ↦ rw e at h
    | inr e ↦ let h' = rw e at h in let (p, q) = insert_by-All P a xs h'.1 in (p, (h'.0, q))
  ]

  pub All-sort_by : (P : A → Type 0) (xs : List A) → All P xs → All P (sort_by xs)
  unfolding sort_by
  All-sort_by P [] h = tt
  All-sort_by P (x ∷ xs) h = All-insert_by P x (sort_by xs) h.0 (All-sort_by P xs h.1)

  pub sort_by-All : (P : A → Type 0) (xs : List A) → All P (sort_by xs) → All P xs
  unfolding sort_by
  sort_by-All P [] h = tt
  sort_by-All P (x ∷ xs) h =
      let (p, q) = insert_by-All P x (sort_by xs) h in (p, sort_by-All P xs q)

  insert_by-Sorted : (a : A) (xs : List A) → Sorted xs → Sorted (insert_by a xs)
  unfolding insert_by
  insert_by-Sorted a [] h = (tt, tt)
  insert_by-Sorted a (x ∷ xs) h = elim (Bool-cases (text_leb (key a) (key x))) [
    | inl e ↦ rw e ((e, All-map _ _ xs (λ y q. text_leb_trans (key a) (key x) (key y) e q) h.0), h)
    | inr e ↦
        rw e
          (All-insert_by _ a xs (text_leb_total (key a) (key x) e) h.0, insert_by-Sorted a xs h.1)
  ]

  pub sort_by-Sorted : (xs : List A) → Sorted (sort_by xs)
  unfolding sort_by
  sort_by-Sorted [] = tt
  sort_by-Sorted (x ∷ xs) = insert_by-Sorted x (sort_by xs) (sort_by-Sorted xs)

  -- A sorted list is left as it is.
  pub sort_by-eq_self : (xs : List A) → Sorted xs → sort_by xs ≡ xs
  unfolding sort_by insert_by
  sort_by-eq_self [] h = refl
  sort_by-eq_self (x ∷ []) h = refl
  sort_by-eq_self (x ∷ y ∷ xs) h = rw (sort_by-eq_self (y ∷ xs) h.1, h.0.0)
