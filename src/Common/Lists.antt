-- ===== src/Common/Lists.antt =====
-- Lists measured by native numbers, under the library's names, and the loops of package `slices`.
use Prim.Native.Nat.{ℕ, zero, suc, ◌≤◌, min}
use Prim.Native.String.{String}
use mathlib.Core.Path.{◌≡◌, refl, sym, ap}
use mathlib.Core.Logic.{inl, inr}
use mathlib.Core.Bool.{Bool, true, false, ◌||◌}
use mathlib.Core.List.{List, [], ◌∷◌, Memᴰ}
use mathlib.Core.List.Memᴰ
use native.Mathlib.Omega.{arith}
use text.Mathlib.Text.{◌==◌}
use text.Mathlib.TextEquality.{eq_iff}
use thanos_operator.Common.Tests.{Bool-cases, ==-eq}

module _ {ℓ} {A : Type ℓ} where
  abbrev pub length : List A → ℕ
  length [] = 0
  length (x ∷ xs) = suc (length xs)

  abbrev pub take : ℕ → List A → List A
  take zero xs = []
  take (suc n) [] = []
  take (suc n) (x ∷ xs) = x ∷ take n xs

  pub length-take : (n : ℕ) (xs : List A) → length (take n xs) ≡ min n (length xs)
  length-take zero xs = omega arith
  length-take (suc n) [] = omega arith
  length-take (suc n) (x ∷ xs) = omega (arith, length-take n xs)

  pub take_all : (n : ℕ) (xs : List A) → length xs ≤ n → take n xs ≡ xs
  take_all zero [] h = refl
  take_all zero (x ∷ xs) h = absurd (omega arith)
  take_all (suc n) [] h = refl
  take_all (suc n) (x ∷ xs) h = ap (◌∷◌ x) (take_all n xs (omega arith))

-- `slices.Contains`
unfoldable pub contains : List String → String → Bool
contains [] s = false
contains (x ∷ xs) s = x == s || contains xs s

pub contains→mem : (xs : List String) (s : String) → contains xs s ≡ true → Memᴰ s xs
unfolding contains
contains→mem [] s h = cc
contains→mem (x ∷ xs) s h = elim (Bool-cases (x == s)) [
  | inl e ↦ Memᴰ.head (sym (==-eq x s e))
  | inr e ↦ Memᴰ.tail (contains→mem xs s (rw (e, contains) at h))
]

pub mem→contains : (xs : List String) (s : String) → Memᴰ s xs → contains xs s ≡ true
unfolding contains
mem→contains [] s m = absurd (Memᴰ.not-nil m)
mem→contains (x ∷ xs) s (Memᴰ.head e) = ground (arith, eq_iff x s)
mem→contains (x ∷ xs) s (Memᴰ.tail m) = ground (arith, mem→contains xs s m)
