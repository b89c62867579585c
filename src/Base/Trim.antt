-- ===== src/Base/Trim.antt =====
-- Laws of trimming.
use thingsflow.Base.Tests.{Bool-cases}
use thingsflow.Base.Lists.{All}
use thingsflow.Base.Text.{Text, trim_left, trim_right, keep_before, trim}
use Prim.Native.Nat.{ℕ}
use mathlib.Core.Path.{◌≡◌, refl}
use mathlib.Core.Logic.{inl, inr, ◌≢◌}
use mathlib.Core.Bool.{Bool, false}
use mathlib.Core.List.{[], ◌∷◌, ◌++◌}

module _ (p : ℕ → Bool) where
  -- The first code point, if there is one, fails the test.
  abbrev pub Starts : Text → Type 0
  Starts [] = Unit
  Starts (c ∷ s) = p c ≡ false

  trim_left-Starts : (s : Text) → Starts (trim_left p s)
  unfolding trim_left
  trim_left-Starts [] = tt
  trim_left-Starts (c ∷ s) = elim (Bool-cases (p c)) [
    | inl e ↦ rw e (trim_left-Starts s)
    | inr e ↦ rw e e
  ]

  trim_left-eq_self : (s : Text) → Starts s → trim_left p s ≡ s
  unfolding trim_left
  trim_left-eq_self [] h = refl
  trim_left-eq_self (c ∷ s) h = rw h

  keep_before-Starts : (c : ℕ) (r : Text) → p c ≡ false → Starts (keep_before p c r)
  unfolding keep_before
  keep_before-Starts c [] h = rw h h
  keep_before-Starts c (d ∷ r) h = h

  trim_right-Starts : (s : Text) → Starts s → Starts (trim_right p s)
  unfolding trim_right
  trim_right-Starts [] h = tt
  trim_right-Starts (c ∷ s) h = keep_before-Starts c (trim_right p s) h

  trim_right-keep_before :
      (c : ℕ) (r : Text) → trim_right p r ≡ r → trim_right p (keep_before p c r) ≡ keep_before p c r
  unfolding keep_before trim_right
  trim_right-keep_before c [] h = elim (Bool-cases (p c)) [ inl e ↦ rw e | inr e ↦ rw (e, e) ]
  trim_right-keep_before c (d ∷ r) h = rw h

  trim_right_idem : (s : Text) → trim_right p (trim_right p s) ≡ trim_right p s
  unfolding trim_right
  trim_right_idem [] = refl
  trim_right_idem (c ∷ s) = trim_right-keep_before c (trim_right p s) (trim_right_idem s)

  -- Trimming a trimmed text changes nothing.
  pub trim_idem : (s : Text) → trim p (trim p s) ≡ trim p s
  unfolding trim
  trim_idem s =
      rw (trim_left-eq_self _ (trim_right-Starts _ (trim_left-Starts s)))
        (trim_right_idem (trim_left p s))

  pub trim_right-trim : (s : Text) → trim_right p (trim p s) ≡ trim p s
  unfolding trim
  trim_right-trim s = trim_right_idem (trim_left p s)

  pub trim-Starts : (s : Text) → Starts (trim p s)
  unfolding trim
  trim-Starts s = trim_right-Starts _ (trim_left-Starts s)

  trim_right-append : (a b : Text) → trim_right p b ≡ b → b ≢ [] → trim_right p (a ++ b) ≡ a ++ b
  unfolding trim_right
  trim_right-append [] b h n = h
  trim_right-append (c ∷ a) b h n = rw (trim_right-append a b h n) (cons_kept (a ++ b) (filled a))
    where
      filled : (a : Text) → a ++ b ≢ []
      filled [] = n
      filled (x ∷ xs) = λ e. cc

      cons_kept : (s : Text) → s ≢ [] → keep_before p c s ≡ c ∷ s
      cons_kept [] q = absurd (q refl)
      cons_kept (x ∷ xs) q = unfold keep_before in refl

  -- A text that starts with no trimmed code point, and ends in a trimmed text, is trimmed.
  pub trim-append_self :
      (c : ℕ) (a b : Text)
      → p c ≡ false
      → trim_right p b ≡ b
      → b ≢ []
      → trim p (c ∷ (a ++ b)) ≡ c ∷ (a ++ b)
  unfolding trim
  trim-append_self c a b h k n =
      rw (trim_left-eq_self (c ∷ (a ++ b)) h) (trim_right-append (c ∷ a) b k n)

  module _ (Q : ℕ → Type 0) where
    All-trim_left : (s : Text) → All Q s → All Q (trim_left p s)
    unfolding trim_left
    All-trim_left [] h = tt
    All-trim_left (c ∷ s) h = elim (Bool-cases (p c)) [
      | inl e ↦ rw e (All-trim_left s h.1)
      | inr e ↦ rw e h
    ]

    All-keep_before : (c : ℕ) (r : Text) → Q c → All Q r → All Q (keep_before p c r)
    unfolding keep_before
    All-keep_before c [] q h = elim (Bool-cases (p c)) [ inl e ↦ rw e tt | inr e ↦ rw e (q, tt) ]
    All-keep_before c (d ∷ r) q h = (q, h)

    All-trim_right : (s : Text) → All Q s → All Q (trim_right p s)
    unfolding trim_right
    All-trim_right [] h = tt
    All-trim_right (c ∷ s) h = All-keep_before c (trim_right p s) h.0 (All-trim_right s h.1)

    -- What holds of every code point holds of those that are left.
    pub All-trim : (s : Text) → All Q s → All Q (trim p s)
    unfolding trim
    All-trim s h = All-trim_right _ (All-trim_left s h)
