-- ===== src/Manifests/Args/Groups.antt =====
-- The arguments of one flag, and what `MergeArgs` should make of them.
use mathlib.Core.List.{append-nil}
use thanos_operator.Common.{
  String, Bool, ◌==◌, List, [], ◌∷◌, ◌++◌, ◌≡◌, refl, ◌∙◌, inl, inr, Bool-cases, if◌then◌else◌,
  arith,
}
use thanos_operator.Manifests.Args.{extract_flag, is_repeatable_flag}
use thanos_operator.Manifests.Args.Pruning.{select, select-append}

abbrev pub has_flag : String → String → Bool
has_flag flag arg = extract_flag arg == flag

-- The arguments that have the flag, in their order.
abbrev pub with_flag : String → List String → List String
with_flag flag args = select (has_flag flag) args

-- The last element, as a list of at most one.
unfoldable pub last_of {ℓ} : {A : Type ℓ} → List A → List A
last_of [] = []
last_of (x ∷ []) = x ∷ []
last_of (x ∷ y ∷ xs) = last_of (y ∷ xs)

-- What is left of the arguments with a flag: all of them if the flag may be repeated, and the last
-- one if it may not.
unfoldable pub surviving : String → List String → List String
surviving flag args = if is_repeatable_flag flag then args else last_of args

pub last_of-snoc {ℓ} : {A : Type ℓ} (xs : List A) (y : A) → last_of (xs ++ y ∷ []) ≡ y ∷ []
unfolding last_of
last_of-snoc [] y = refl
last_of-snoc (x ∷ []) y = refl
last_of-snoc (x ∷ z ∷ xs) y = last_of-snoc (z ∷ xs) y

pub with_flag-snoc :
    (flag : String) (args : List String) (arg : String)
    → with_flag flag (args ++ arg ∷ [])
      ≡ (if extract_flag arg == flag then with_flag flag args ++ arg ∷ [] else with_flag flag args)
unfolding select
with_flag-snoc flag args arg = elim (Bool-cases (extract_flag arg == flag)) [
  | inl e ↦ rw e (select-append (has_flag flag) args (arg ∷ []) ∙ ground arith)
  | inr e ↦ rw e (
      select-append (has_flag flag) args (arg ∷ [])
      ∙ ground (arith, append-nil (with_flag flag args)))
]
