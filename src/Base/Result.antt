-- ===== src/Base/Result.antt =====
-- Results that carry a value or an error, with `do`.
use thingsflow.Base.Tests.{if◌then◌else◌}
use mathlib.Core.Path.{◌≡◌, refl, subst}
use mathlib.Core.Logic.{◌⊎◌, inl, inr}
use mathlib.Core.List.{List, [], ◌∷◌}
use mathlib.Core.Bool.{Bool, true}
use native.Mathlib.Omega.{arith}

pub data Result {ℓ} (E A : Type ℓ) : Type ℓ where
  err : E → Result E A
  ok : A → Result E A

pub Result-cases :
    {E A : Type 0} (r : Result E A) → ((x : E) × (r ≡ err x)) ⊎ ((v : A) × (r ≡ ok v))
Result-cases (err x) = inl (x, refl)
Result-cases (ok v) = inr (v, refl)

module _ {E A B : Type 0} where
  infixl 5 ◌>>=◌
  -- An error ends the block.
  abbrev pub ◌>>=◌ : Result E A → (A → Result E B) → Result E B
  ◌>>=◌ (err x) rest = err x
  ◌>>=◌ (ok v) rest = rest v

  -- A block that succeeds has a first step that succeeds, and goes on with its value.
  pub >>=-eq-ok :
      (first : Result E A) (rest : A → Result E B) {out : B}
      → (first >>= rest) ≡ ok out
      → (v : A) × (first ≡ ok v) × (rest v ≡ ok out)
  >>=-eq-ok (ok v) rest q = (v, refl, q)
  >>=-eq-ok (err x) rest q = cc

module _ {E : Type 0} where
  infixl 5 ◌>>◌
  abbrev pub ◌>>◌ : {B : Type 0} → Result E (Unit {0}) → Result E B → Result E B
  check >> rest = check >>= λ _. rest

  -- `if !b { return x }`
  abbrev pub guard : Bool → E → Result E (Unit {0})
  guard b x = if b then ok tt else err x

  pub guard-eq-ok : (b : Bool) (x : E) {u : Unit {0}} → guard b x ≡ ok u → b ≡ true
  guard-eq-ok b x q = ground arith

-- A loop over a list whose body may return an error.
unfoldable pub each : {E S : Type 0} {A : Type 0} → (S → A → Result E S) → S → List A → Result E S
each step s [] = ok s
each step s (a ∷ rest) = do s' ← step s a; each step s' rest

-- What every round keeps holds at the end.
pub each_inv :
    {E S A : Type 0} (P : S → Type 0) (step : S → A → Result E S)
    → ((s : S) (a : A) (s' : S) → P s → step s a ≡ ok s' → P s')
    → (s : S) (l : List A) (s' : S) → P s
    → each step s l ≡ ok s'
    → P s'
unfolding each
each_inv P step keep s [] s' p h = subst P (ground (arith, h)) p
each_inv P step keep s (a ∷ l) s' p h =
    let (t, e, q) = >>=-eq-ok (step s a) (λ t. each step t l) h in
    each_inv P step keep t l s' (keep s a t p e) q

-- A loop over a list that is not empty makes its first round.
pub each-cons-ok :
    {E S A : Type 0} (step : S → A → Result E S) (s : S) (a : A) (l : List A) {out : S}
    → each step s (a ∷ l) ≡ ok out
    → (s' : S) × (step s a ≡ ok s') × (each step s' l ≡ ok out)
unfolding each
each-cons-ok step s a l h = >>=-eq-ok (step s a) (λ t. each step t l) h
