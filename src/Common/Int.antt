-- ===== src/Common/Int.antt =====
-- Go's `int` where the source may meet a negative number. The values come from `int32` fields, so
-- `x - 1` does not overflow the 64-bit `int`.
use Prim.Native.Nat.{ℕ, zero, suc, ◌+◌, ◌≤◌}
use mathlib.Core.Path.{◌≡◌, refl}
use mathlib.Core.Bool.{Bool, true}
use native.Mathlib.Omega.{arith}
use thanos_operator.Common.Tests.{leb}

-- `negsuc n` is -(n + 1).
pub data ℤ : Type 0 where
  pos : ℕ → ℤ
  negsuc : ℕ → ℤ

-- The number, or 0 below it.
abbrev pub to_nat : ℤ → ℕ
to_nat (pos n) = n
to_nat (negsuc n) = 0

-- `z - 1`
abbrev pub pred : ℤ → ℤ
pred (pos zero) = negsuc 0
pred (pos (suc n)) = pos n
pred (negsuc n) = negsuc (suc n)

-- `n >= z`, for a length `n`.
abbrev pub at_least : ℕ → ℤ → Bool
at_least n (pos m) = leb m n
at_least n (negsuc m) = true

pub at_least→le : (n : ℕ) (z : ℤ) → at_least n z ≡ true → to_nat z ≤ n
at_least→le n (pos m) h = ground arith
at_least→le n (negsuc m) h = omega arith

pub le→at_least : (n : ℕ) (z : ℤ) → to_nat z ≤ n → at_least n z ≡ true
le→at_least n (pos m) h = ground arith
le→at_least n (negsuc m) h = refl

pub at_least-pred→le : (n : ℕ) (z : ℤ) → at_least n (pred z) ≡ true → to_nat z ≤ n + 1
at_least-pred→le n (pos zero) h = omega arith
at_least-pred→le n (pos (suc m)) h = ground arith
at_least-pred→le n (negsuc m) h = omega arith

pub le→at_least-pred : (n : ℕ) (z : ℤ) → to_nat z ≤ n + 1 → at_least n (pred z) ≡ true
le→at_least-pred n (pos zero) h = refl
le→at_least-pred n (pos (suc m)) h = ground arith
le→at_least-pred n (negsuc m) h = refl
