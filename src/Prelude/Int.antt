-- ===== src/Prelude/Int.antt =====
-- C's `int` results, which are small: an integer over the native numbers.
use Prim.Native.Nat.{ℕ, zero, suc}
use mathlib.Core.Bool.{Bool, true, false}
use mathlib.Core.Path.{◌≡◌, refl}
use mathlib.Core.Logic.{◌⊎◌, inl, inr}

-- `negsuc n` is -(n + 1).
pub data ℤ : Type 0 where
  pos : ℕ → ℤ
  negsuc : ℕ → ℤ

-- `r == 0`
abbrev pub is_zero : ℤ → Bool
is_zero (pos zero) = true
is_zero (pos (suc n)) = false
is_zero (negsuc n) = false

pub ℤ-cases : (z : ℤ) → ((i : ℕ) × (z ≡ pos i)) ⊎ ((i : ℕ) × (z ≡ negsuc i))
ℤ-cases (pos i) = inl (i, refl)
ℤ-cases (negsuc i) = inr (i, refl)
