-- ===== src/Base/Collect.antt =====
-- Loops that collect the different items of a list, and the sorted lists that they leave behind.
use thingsflow.Base.Tests.{Bool-cases}
use thingsflow.Base.Lists.{All, Any}
use thingsflow.Base.Text.{Text}
use thingsflow.Base.Sort.{sort_by, insert_by, text_leb}
use thingsflow.Base.Result.{Result, ok, each, each_inv}
use mathlib.Core.Path.{◌≡◌, refl, sym, ap, ◌∙◌}
use mathlib.Core.Logic.{◌⊎◌, inl, inr}
use mathlib.Core.List.{List, [], ◌∷◌, ◌++◌, append_assoc, append-nil}
use native.Mathlib.Omega.{arith}

pub All-append :
    {A : Type 0} (P : A → Type 0) (xs ys : List A) → All P xs → All P ys → All P (xs ++ ys)
All-append P [] ys h k = k
All-append P (x ∷ xs) ys h k = (h.0, All-append P xs ys h.1 k)

module _ {A : Type 0} (key : A → Text) where
  -- The key of `x` is among those of `l`.
  abbrev pub HasKey : Text → List A → Type 0
  HasKey k l = Any (λ x. k ≡ key x) l

  -- The keys differ.
  abbrev pub Distinct : List A → Type 0
  Distinct [] = Unit
  Distinct (x ∷ xs) = (¬ HasKey (key x) xs) × Distinct xs

  HasKey-append :
      (k : Text) (xs : List A) (y : A) → HasKey k (xs ++ y ∷ []) → HasKey k xs ⊎ (k ≡ key y)
  HasKey-append k [] y h = ground arith
  HasKey-append k (x ∷ xs) y h = ground (arith, HasKey-append k xs y)

  append-HasKey :
      (k : Text) (xs : List A) (y : A) (ys : List A) → HasKey k xs → HasKey k (xs ++ y ∷ ys)
  append-HasKey k [] y ys h = elim h [ ]
  append-HasKey k (x ∷ xs) y ys h = ground (arith, append-HasKey k xs y ys)

  append-HasKey_self : (xs : List A) (y : A) (ys : List A) → HasKey (key y) (xs ++ y ∷ ys)
  append-HasKey_self [] y ys = inl refl
  append-HasKey_self (x ∷ xs) y ys = inr (append-HasKey_self xs y ys)

  Distinct-append :
      (xs : List A) (y : A) → Distinct xs → ¬ HasKey (key y) xs → Distinct (xs ++ y ∷ [])
  Distinct-append [] y d n = ((λ h. h), tt)
  Distinct-append (x ∷ xs) y d n = (
    (λ h. elim (HasKey-append (key x) xs y h) [ inl q ↦ d.0 q | inr e ↦ n (inl (sym e)) ]),
    Distinct-append xs y d.1 (λ q. n (inr q)),
  )

  append-Distinct :
      (xs : List A) (y : A) (ys : List A) → Distinct (xs ++ y ∷ ys) → ¬ HasKey (key y) xs
  append-Distinct [] y ys d = λ h. h
  append-Distinct (x ∷ xs) y ys d = λ h. elim h [
    | inl e ↦ d.0 (rw (← e) (append-HasKey_self xs y ys))
    | inr q ↦ append-Distinct xs y ys d.1 q
  ]

  HasKey-insert_by :
      (k : Text) (a : A) (xs : List A) → HasKey k (insert_by key a xs) → (k ≡ key a) ⊎ HasKey k xs
  unfolding insert_by
  HasKey-insert_by k a [] h = ground arith
  HasKey-insert_by k a (x ∷ xs) h = ground (arith, HasKey-insert_by k a xs)

  HasKey-sort_by : (k : Text) (xs : List A) → HasKey k (sort_by key xs) → HasKey k xs
  unfolding sort_by
  HasKey-sort_by k [] h = h
  HasKey-sort_by k (x ∷ xs) h =
      ground (arith, HasKey-insert_by k x (sort_by key xs), HasKey-sort_by k xs)

  Distinct-insert_by :
      (a : A) (xs : List A) → Distinct xs → ¬ HasKey (key a) xs → Distinct (insert_by key a xs)
  unfolding insert_by
  Distinct-insert_by a [] d n = (n, tt)
  Distinct-insert_by a (x ∷ xs) d n = elim (Bool-cases (text_leb (key a) (key x))) [
    | inl e ↦ rw e (n, d)
    | inr e ↦ rw e (
      (λ h. elim (HasKey-insert_by (key x) a xs h) [ inl q ↦ n (inl (sym q)) | inr q ↦ d.0 q ]),
      Distinct-insert_by a xs d.1 (λ q. n (inr q)),
    )
  ]

  pub Distinct-sort_by : (xs : List A) → Distinct xs → Distinct (sort_by key xs)
  unfolding sort_by
  Distinct-sort_by [] d = tt
  Distinct-sort_by (x ∷ xs) d =
      Distinct-insert_by x (sort_by key xs) (Distinct-sort_by xs d.1)
        (λ h. d.0 (HasKey-sort_by (key x) xs h))

-- A loop that appends the items it finds good and new, from raw items `R`.
module _ {A : Type 0} (key : A → Text) (G : A → Type 0) where
  abbrev pub Collected : List A → Type 0
  Collected l = All G l × Distinct key l

  -- A round leaves the list, or appends a good item with a new key.
  abbrev pub Appends : List A → List A → Type 0
  Appends acc acc' =
      (acc' ≡ acc) ⊎ ((x : A) × G x × (¬ HasKey key (key x) acc) × (acc' ≡ acc ++ x ∷ []))

  Appends-Collected : (acc acc' : List A) → Collected acc → Appends acc acc' → Collected acc'
  Appends-Collected acc acc' c (inl e) = rw e c
  Appends-Collected acc acc' c (inr (x, g, n, e)) =
      rw e (All-append G acc (x ∷ []) c.0 (g, tt), Distinct-append key acc x c.1 n)

  pub each-Collected :
      {E R : Type 0} (step : List A → R → Result E (List A))
      → ((acc : List A) (r : R) (acc' : List A) → step acc r ≡ ok acc' → Appends acc acc')
      → (l : List R) (out : List A) → each step [] l ≡ ok out
      → Collected out
  each-Collected step rounds l out h =
      each_inv Collected step (λ s a s' c e. Appends-Collected s s' c (rounds s a s' e)) [] l out
        (tt, tt) h

  -- Good items with different keys go through the loop as they are.
  pub each-eq_self :
      {E : Type 0} (step : List A → A → Result E (List A))
      → ((acc : List A) (x : A) → G x → ¬ HasKey key (key x) acc → step acc x ≡ ok (acc ++ x ∷ []))
      → (acc l : List A) → All G l
      → Distinct key (acc ++ l)
      → each step acc l ≡ ok (acc ++ l)
  unfolding each
  each-eq_self step rounds acc [] g d = rw append-nil
  each-eq_self step rounds acc (x ∷ l) g d = rw (rounds acc x g.0 (append-Distinct key acc x l d)) (
      each-eq_self step rounds (acc ++ x ∷ []) l g.1 (rw append_assoc d)
      ∙ ap ok (append_assoc acc (x ∷ []) l))
