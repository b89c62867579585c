-- ===== src/Base/Int.antt =====
-- Go's signed integers as far as the program compares them. Times are within the range of an
-- int64: the program only copies and compares them.
use thingsflow.Base.Tests.{ltb, leb, ◌==◌, if◌then◌else◌}
use Prim.Native.Nat.{ℕ}
use mathlib.Core.Path.{◌≡◌, refl}
use mathlib.Core.Logic.{◌↔◌}
use mathlib.Core.Bool.{Bool, true, false}
use native.Mathlib.Omega.{arith}

-- `negsuc n` is -(n + 1).
pub data ℤ : Type 0 where
  pos : ℕ → ℤ
  negsuc : ℕ → ℤ

-- `a < b`
unfoldable pub lt_int : ℤ → ℤ → Bool
lt_int (pos a) (pos b) = ltb a b
lt_int (pos a) (negsuc b) = false
lt_int (negsuc a) (pos b) = true
lt_int (negsuc a) (negsuc b) = ltb b a

-- `a == 0`
unfoldable pub is_zero : ℤ → Bool
is_zero (pos a) = leb a 0
is_zero (negsuc a) = false

abbrev pub max_int : ℤ → ℤ → ℤ
max_int a b = if lt_int a b then b else a

pub lt_int_irrefl : (a : ℤ) → lt_int a a ≡ false
unfolding lt_int
lt_int_irrefl (pos a) = ground arith
lt_int_irrefl (negsuc a) = ground arith

pub lt_int_asymm : (a b : ℤ) → lt_int a b ≡ true → lt_int b a ≡ false
unfolding lt_int
lt_int_asymm (pos a) (pos b) h = ground arith
lt_int_asymm (pos a) (negsuc b) h = cc
lt_int_asymm (negsuc a) (pos b) h = refl
lt_int_asymm (negsuc a) (negsuc b) h = ground arith

pub lt_int_cotrans : (a b c : ℤ) → lt_int a b ≡ false → lt_int b c ≡ false → lt_int a c ≡ false
unfolding lt_int
lt_int_cotrans (pos a) (pos b) (pos c) h k = ground arith
lt_int_cotrans (pos a) (pos b) (negsuc c) h k = refl
lt_int_cotrans (pos a) (negsuc b) c h k = ground arith
lt_int_cotrans (negsuc a) (pos b) c h k = cc
lt_int_cotrans (negsuc a) (negsuc b) (pos c) h k = cc
lt_int_cotrans (negsuc a) (negsuc b) (negsuc c) h k = ground arith

pub lt_int_antisymm : (a b : ℤ) → lt_int a b ≡ false → lt_int b a ≡ false → a ≡ b
unfolding lt_int
lt_int_antisymm (pos a) (pos b) h k = ground arith
lt_int_antisymm (pos a) (negsuc b) h k = cc
lt_int_antisymm (negsuc a) (pos b) h k = cc
lt_int_antisymm (negsuc a) (negsuc b) h k = ground arith

unfoldable pub eq_int : ℤ → ℤ → Bool
eq_int (pos a) (pos b) = a == b
eq_int (pos a) (negsuc b) = false
eq_int (negsuc a) (pos b) = false
eq_int (negsuc a) (negsuc b) = a == b

pub eq_int_iff : (a b : ℤ) → (eq_int a b ≡ true) ↔ (a ≡ b)
unfolding eq_int
eq_int_iff (pos a) (pos b) = ((λ h. ground arith), (λ h. ground arith))
eq_int_iff (pos a) (negsuc b) = ((λ h. cc), (λ h. cc))
eq_int_iff (negsuc a) (pos b) = ((λ h. cc), (λ h. cc))
eq_int_iff (negsuc a) (negsuc b) = ((λ h. ground arith), (λ h. ground arith))
