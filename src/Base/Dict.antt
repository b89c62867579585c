-- ===== src/Base/Dict.antt =====
-- Go maps with string keys, as association lists.
use thingsflow.Base.Tests.{if◌then◌else◌, Bool-cases}
use thingsflow.Base.Lists.{NoDup, In}
use thingsflow.Base.Text.{Text, text_eq, text_eq_iff}
use mathlib.Core.Path.{◌≡◌, refl}
use mathlib.Core.Logic.{◌⊎◌, inl, inr}
use mathlib.Core.Bool.{Bool}
use mathlib.Core.List.{List, [], ◌∷◌}
use mathlib.Core.Option.{Option, none, some}
use native.Mathlib.Omega.{arith}

abbrev pub Dict {ℓ} : Type ℓ → Type ℓ
Dict V = List (Text × V)

module _ {ℓ} {V : Type ℓ} where
  -- `v, ok := m[k]`
  unfoldable pub get : Dict V → Text → Option V
  get [] k = none
  get ((j, v) ∷ m) k = if text_eq j k then some v else get m k

  -- `m[k] = v`
  unfoldable pub put : Dict V → Text → V → Dict V
  put [] k v = (k, v) ∷ []
  put ((j, w) ∷ m) k v = if text_eq j k then (k, v) ∷ m else (j, w) ∷ put m k v

  -- `delete(m, k)`
  unfoldable pub remove : Dict V → Text → Dict V
  remove [] k = []
  remove ((j, v) ∷ m) k = let rest = remove m k in if text_eq j k then rest else (j, v) ∷ rest

  -- A loop over the map that deletes the entries whose value fails a test.
  unfoldable pub keep : (V → Bool) → Dict V → Dict V
  keep p [] = []
  keep p ((j, v) ∷ m) = let rest = keep p m in if p v then (j, v) ∷ rest else rest

  unfoldable pub keys : Dict V → List Text
  keys [] = []
  keys ((j, v) ∷ m) = j ∷ keys m

  pub get-put :
      (m : Dict V) (k j : Text) (v : V)
      → get (put m k v) j ≡ (if text_eq k j then some v else get m j)
  unfolding get put
  get-put [] k j v = refl
  get-put ((i, w) ∷ m) k j v =
      ground (arith, text_eq_iff k j, text_eq_iff i k, text_eq_iff i j, get-put m k j v)

  pub get-remove :
      (m : Dict V) (k j : Text) → get (remove m k) j ≡ (if text_eq k j then none else get m j)
  unfolding get remove
  get-remove [] k j = ground arith
  get-remove ((i, w) ∷ m) k j =
      ground (arith, text_eq_iff k j, text_eq_iff i k, text_eq_iff i j, get-remove m k j)

  pub get-none : (m : Dict V) (k : Text) → ¬ In k (keys m) → get m k ≡ none
  unfolding get keys
  get-none [] k h = refl
  get-none ((j, v) ∷ m) k h =
      ground (arith, text_eq_iff j k, get-none m k (λ q. h (inr q)), λ (e : k ≡ j). h (inl e))

-- What a filtered lookup gives.
abbrev pub filtered {ℓ} : {V : Type ℓ} → (V → Bool) → Option V → Option V
filtered p none = none
filtered p (some v) = if p v then some v else none

module _ {ℓ} {V : Type ℓ} where
  -- On a map, whose keys differ, the deleting loop filters each lookup.
  pub get-keep :
      (p : V → Bool) (m : Dict V) (k : Text)
      → NoDup (keys m)
      → get (keep p m) k ≡ filtered p (get m k)
  unfolding get keep keys
  get-keep p [] k h = refl
  get-keep p ((j, v) ∷ m) k h = ground (arith, text_eq_iff j k, get-keep p m k h.1, get-none m k)

  In-keys-put :
      (m : Dict V) (k j : Text) (v : V) → In j (keys (put m k v)) → (j ≡ k) ⊎ In j (keys m)
  unfolding put keys
  In-keys-put [] k j v h = ground arith
  In-keys-put ((i, w) ∷ m) k j v h = ground (arith, text_eq_iff i k, In-keys-put m k j v)

  pub NoDup-put : (m : Dict V) (k : Text) (v : V) → NoDup (keys m) → NoDup (keys (put m k v))
  unfolding put keys
  NoDup-put [] k v h = ((λ x. x), tt)
  NoDup-put ((i, w) ∷ m) k v h = elim (Bool-cases (text_eq i k)) [
    | inl e ↦ rw e (rw ((text_eq_iff i k).0 e) at h)
    | inr e ↦
        rw e
          ((λ q. ground (arith, text_eq_iff i k, In-keys-put m k i v q, h.0)), NoDup-put m k v h.1)
  ]

  In-keys-remove : (m : Dict V) (k j : Text) → In j (keys (remove m k)) → In j (keys m)
  unfolding remove keys
  In-keys-remove [] k j h = h
  In-keys-remove ((i, w) ∷ m) k j h = ground (arith, In-keys-remove m k j)

  pub NoDup-remove : (m : Dict V) (k : Text) → NoDup (keys m) → NoDup (keys (remove m k))
  unfolding remove keys
  NoDup-remove [] k h = tt
  NoDup-remove ((i, w) ∷ m) k h = elim (Bool-cases (text_eq i k)) [
    | inl e ↦ rw e (NoDup-remove m k h.1)
    | inr e ↦ rw e ((λ q. h.0 (In-keys-remove m k i q)), NoDup-remove m k h.1)
  ]

  In-keys-keep : (p : V → Bool) (m : Dict V) (j : Text) → In j (keys (keep p m)) → In j (keys m)
  unfolding keep keys
  In-keys-keep p [] j h = h
  In-keys-keep p ((i, w) ∷ m) j h = ground (arith, In-keys-keep p m j)

  pub NoDup-keep : (p : V → Bool) (m : Dict V) → NoDup (keys m) → NoDup (keys (keep p m))
  unfolding keep keys
  NoDup-keep p [] h = tt
  NoDup-keep p ((i, w) ∷ m) h = elim (Bool-cases (p w)) [
    | inl e ↦ rw e ((λ q. h.0 (In-keys-keep p m i q)), NoDup-keep p m h.1)
    | inr e ↦ rw e (NoDup-keep p m h.1)
  ]
