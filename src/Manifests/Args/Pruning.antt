-- ===== src/Manifests/Args/Pruning.antt =====
-- `PruneEmptyArgs` keeps exactly the arguments that are not empty, in their order.
use thanos_operator.Common.{
  ℕ, zero, suc, String, Bool, true, false, not, List, [], ◌∷◌, ◌++◌, ◌≡◌, refl, ap, ◌∙◌, inl, inr,
  length, Bool-cases, if◌then◌else◌, arith, All,
}
use thanos_operator.Manifests.Args.{is_empty_arg, prune_at, prune_below, prune_empty_args}

-- The elements that pass a test.
unfoldable pub select {ℓ} : {A : Type ℓ} → (A → Bool) → List A → List A
select p [] = []
select p (x ∷ xs) = if p x then x ∷ select p xs else select p xs

abbrev pub is_given : String → Bool
is_given arg = not (is_empty_arg arg)

pub select-append {ℓ} :
    {A : Type ℓ} (p : A → Bool) (xs ys : List A) → select p (xs ++ ys) ≡ select p xs ++ select p ys
unfolding select
select-append p [] ys = refl
select-append p (x ∷ xs) ys = ground (arith, select-append p xs ys)

prune_at-cons :
    (i : ℕ) (x : String) (args : List String) → prune_at (suc i) (x ∷ args) ≡ x ∷ prune_at i args
unfolding prune_at
prune_at-cons i x args = ground arith

prune_below-cons :
    (n : ℕ) (x : String) (args : List String)
    → prune_below (suc n) (x ∷ args) ≡ prune_at 0 (x ∷ prune_below n args)
unfolding prune_below
prune_below-cons zero x args = refl
prune_below-cons (suc n) x args =
    ap (prune_below (suc n)) (prune_at-cons n x args) ∙ prune_below-cons n x (prune_at n args)

prune_at_zero :
    (x : String) (args : List String)
    → prune_at 0 (x ∷ args) ≡ (if is_empty_arg x then args else x ∷ args)
unfolding prune_at
prune_at_zero x args = refl

-- The pruned arguments are exactly those that are not empty, in their order.
pub prune_empty_args-select : (args : List String) → prune_empty_args args ≡ select is_given args
unfolding prune_empty_args select
prune_empty_args-select [] = refl
prune_empty_args-select (x ∷ args) =
    prune_below-cons (length args) x args
    ∙ ap (λ l. prune_at 0 (x ∷ l)) (prune_empty_args-select args)
    ∙ prune_at_zero x (select is_given args)
    ∙ ground arith

-- What a selection keeps passes the test, and it keeps everything where all pass.
pub All-select {ℓ} : {A : Type ℓ} (p : A → Bool) (xs : List A) → All (λ x. p x ≡ true) (select p xs)
unfolding select
All-select p [] = tt
All-select p (x ∷ xs) = elim (Bool-cases (p x)) [
  | inl e ↦ rw e (e, All-select p xs)
  | inr e ↦ rw e (All-select p xs)
]

pub select-All {ℓ} :
    {A : Type ℓ} (p : A → Bool) (xs : List A) → All (λ x. p x ≡ true) xs → select p xs ≡ xs
unfolding select
select-All p [] h = refl
select-All p (x ∷ xs) h = rw h.0 (ap (◌∷◌ x) (select-All p xs h.1))

pub select_none {ℓ} :
    {A : Type ℓ} (p : A → Bool) (xs : List A) → All (λ x. p x ≡ false) xs → select p xs ≡ []
unfolding select
select_none p [] h = refl
select_none p (x ∷ xs) h = rw h.0 (select_none p xs h.1)
