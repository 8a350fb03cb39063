-- ===== src/Common/Sort.antt =====
-- `sort.Slice`, as an insertion sort by a test "comes before", and the order of Go's strings. Two
-- elements of which neither comes before the other may end up in another order in Go, where the
-- sort need not be stable.
use Prim.Native.Nat.{Ordering}
use Prim.Native.String.compare
use Prim.Native.String.{String, [] as nil, ◌∷◌ as cons, compare}
use mathlib.Core.Path.{◌≡◌, refl, sym, ◌∙◌, ap, ap₂, subst}
use mathlib.Core.Logic.{◌≢◌, ◌⊎◌, inl, inr}
use mathlib.Core.Bool.{Bool, true, false}
use mathlib.Core.List.{List, [], ◌∷◌, ◌++◌, Permᴰ}
use mathlib.Core.List.Permᴰ
use native.Mathlib.Omega.{arith}
use text.Mathlib.Text.{is_lt}
use text.Mathlib.TextEquality.{path_by_compare}
use thanos_operator.Common.Tests.{if◌then◌else◌, Bool-cases}
use thanos_operator.Common.Preds.{All, All-perm, All-append}

-- `s < t` on strings.
abbrev pub str_lt : String → String → Bool
str_lt s t = is_lt (compare s t)

flip : Ordering → Ordering
flip Ordering.lt = Ordering.gt
flip Ordering.eq = Ordering.eq
flip Ordering.gt = Ordering.lt

compare-flip : (s t : String) → compare t s ≡ flip (compare s t)
unfolding flip
compare-flip nil nil = refl
compare-flip nil (cons d t) = compare.cons-nil d t ∙ sym (ap flip (compare.nil-cons d t))
compare-flip (cons c s) nil = compare.nil-cons c s ∙ sym (ap flip (compare.cons-nil c s))
compare-flip (cons c s) (cons d t) =
    rw (compare.cons-cons c d s t, compare.cons-cons d c t s) (ground (arith, compare-flip s t))

str_lt_trans :
    (s t u : String)
    → compare s t ≡ Ordering.lt
    → compare t u ≡ Ordering.lt
    → compare s u ≡ Ordering.lt
str_lt_trans nil nil u p q = q
str_lt_trans nil (cons d t) nil p q = cc (compare.cons-nil d t)
str_lt_trans nil (cons d t) (cons e u) p q = compare.nil-cons e u
str_lt_trans (cons c s) nil u p q = cc (compare.cons-nil c s)
str_lt_trans (cons c s) (cons d t) nil p q = cc (compare.cons-nil d t)
str_lt_trans (cons c s) (cons d t) (cons e u) p q = rw (compare.cons-cons c e s u) (
    ground (
      arith,
      rw (compare.cons-cons c d s t) at p,
      rw (compare.cons-cons d e t u) at q,
      str_lt_trans s t u,
    ))

module _ {ℓ} {A : Type ℓ} (lt : A → A → Bool) where
  pub insert_by : A → List A → List A
  insert_by x [] = x ∷ []
  insert_by x (y ∷ ys) = if lt y x then y ∷ insert_by x ys else x ∷ y ∷ ys

  unfoldable pub sort_by : List A → List A
  unfolding insert_by
  sort_by [] = []
  sort_by (x ∷ xs) = insert_by x (sort_by xs)

  -- No later element comes before an earlier one.
  abbrev pub IsSorted : List A → Type 0
  IsSorted [] = Unit
  IsSorted (x ∷ xs) = All (λ y. lt y x ≡ false) xs × IsSorted xs

  insert_by-perm : (x : A) (ys : List A) → Permᴰ (insert_by x ys) (x ∷ ys)
  unfolding insert_by
  insert_by-perm x [] = Permᴰ.refl (x ∷ [])
  insert_by-perm x (y ∷ ys) = elim (Bool-cases (lt y x)) [
    | inl e ↦ rw e (Permᴰ.trans (Permᴰ.cons refl (insert_by-perm x ys)) (Permᴰ.swap refl refl))
    | inr e ↦ rw e (Permᴰ.refl (x ∷ y ∷ ys))
  ]

  pub sort_by-perm : (xs : List A) → Permᴰ (sort_by xs) xs
  unfolding sort_by
  sort_by-perm [] = Permᴰ.nil
  sort_by-perm (x ∷ xs) =
      Permᴰ.trans (insert_by-perm x (sort_by xs)) (Permᴰ.cons refl (sort_by-perm xs))

-- Two tests that agree on the elements of a list sort it alike.
module _ {ℓ κ} {A : Type ℓ} (lt lt' : A → A → Bool) (P : A → Type κ)
    (agree : (x y : A) → P x → P y → lt x y ≡ lt' x y) where
  insert_by-agree : (x : A) (ys : List A) → P x → All P ys → insert_by lt x ys ≡ insert_by lt' x ys
  unfolding insert_by
  insert_by-agree x [] px h = refl
  insert_by-agree x (y ∷ ys) px h = rw (agree y x h.0 px, insert_by-agree x ys px h.1) refl

  pub sort_by-agree : (xs : List A) → All P xs → sort_by lt xs ≡ sort_by lt' xs
  unfolding sort_by
  sort_by-agree [] h = refl
  sort_by-agree (x ∷ xs) h =
      insert_by-agree x (sort_by lt xs) h.0 (All-perm P (Permᴰ.symm (sort_by-perm lt xs)) h.1)
      ∙ ap (insert_by lt' x) (sort_by-agree xs h.1)

-- The facts about a test that make the insertion sort right.
pub record StrictOrder {ℓ} {A : Type ℓ} (lt : A → A → Bool) : Type ℓ where
  pub asym : (x y : A) → lt x y ≡ true → lt y x ≡ false
  pub trans : (x y z : A) → lt x y ≡ true → lt y z ≡ true → lt x z ≡ true
  pub weak : (x y z : A) → lt x z ≡ true → lt y z ≡ false → lt x y ≡ true

module _ {ℓ} {A : Type ℓ} {lt : A → A → Bool} (o : StrictOrder lt) where
  All-not-before :
      {x y : A} (zs : List A)
      → lt y x ≡ false
      → All (λ z. lt z y ≡ false) zs
      → All (λ z. lt z x ≡ false) zs
  All-not-before [] h a = tt
  All-not-before {x} {y} (z ∷ zs) h a = (
    elim (Bool-cases (lt z x)) [ inl e ↦ cc (o.weak z y x e h) | inr e ↦ e ],
    All-not-before zs h a.1,
  )

  insert_by-IsSorted : (x : A) (ys : List A) → IsSorted lt ys → IsSorted lt (insert_by lt x ys)
  unfolding insert_by
  insert_by-IsSorted x [] s = (tt, tt)
  insert_by-IsSorted x (y ∷ ys) s = elim (Bool-cases (lt y x)) [
    | inl e ↦ rw e (
      All-perm (λ z. lt z y ≡ false) (Permᴰ.symm (insert_by-perm lt x ys)) (o.asym y x e, s.0),
      insert_by-IsSorted x ys s.1,
    )
    | inr e ↦ rw e ((e, All-not-before ys e s.0), s)
  ]

  pub sort_by-IsSorted : (xs : List A) → IsSorted lt (sort_by lt xs)
  unfolding sort_by
  sort_by-IsSorted [] = tt
  sort_by-IsSorted (x ∷ xs) = insert_by-IsSorted x (sort_by lt xs) (sort_by-IsSorted xs)

  -- Two insertions of elements that the test tells apart can be exchanged.
  insert_by_comm :
      (a b : A)
      → (lt a b ≡ true) ⊎ (lt b a ≡ true)
      → (ys : List A) → insert_by lt a (insert_by lt b ys) ≡ insert_by lt b (insert_by lt a ys)
  unfolding insert_by
  insert_by_comm a b h [] = ground (arith, o.asym a b, o.asym b a)
  insert_by_comm a b h (y ∷ ys) =
      ground (arith, o.asym a b, o.asym b a, o.trans y a b, o.trans y b a, insert_by_comm a b h ys)

  -- Inserting a block of elements one by one.
  pub sort_by_onto : List A → List A → List A
  sort_by_onto [] s = s
  sort_by_onto (x ∷ xs) s = insert_by lt x (sort_by_onto xs s)

  pub sort_by-append : (xs ys : List A) → sort_by lt (xs ++ ys) ≡ sort_by_onto xs (sort_by lt ys)
  unfolding sort_by sort_by_onto
  sort_by-append [] ys = refl
  sort_by-append (x ∷ xs) ys = ap (insert_by lt x) (sort_by-append xs ys)

  sort_by_onto-insert_by :
      (xs : List A) (b : A) (s : List A)
      → All (λ a. (lt a b ≡ true) ⊎ (lt b a ≡ true)) xs
      → sort_by_onto xs (insert_by lt b s) ≡ insert_by lt b (sort_by_onto xs s)
  unfolding sort_by_onto
  sort_by_onto-insert_by [] b s h = refl
  sort_by_onto-insert_by (x ∷ xs) b s h =
      ap (insert_by lt x) (sort_by_onto-insert_by xs b s h.1)
      ∙ insert_by_comm x b h.0 (sort_by_onto xs s)

  pub sort_by_onto_comm :
      (xs ys s : List A)
      → All (λ b. All (λ a. (lt a b ≡ true) ⊎ (lt b a ≡ true)) xs) ys
      → sort_by_onto xs (sort_by_onto ys s) ≡ sort_by_onto ys (sort_by_onto xs s)
  unfolding sort_by_onto
  sort_by_onto_comm xs [] s h = refl
  sort_by_onto_comm xs (y ∷ ys) s h =
      sort_by_onto-insert_by xs y (sort_by_onto ys s) h.0
      ∙ ap (insert_by lt y) (sort_by_onto_comm xs ys s h.1)

-- The order of a string key.
module _ {ℓ} {A : Type ℓ} (key : A → String) where
  abbrev pub key_lt : A → A → Bool
  key_lt x y = str_lt (key x) (key y)

  key_asym : (x y : A) → key_lt x y ≡ true → key_lt y x ≡ false
  unfolding flip
  key_asym x y h = ground (arith, compare-flip (key x) (key y))

  key_trans : (x y z : A) → key_lt x y ≡ true → key_lt y z ≡ true → key_lt x z ≡ true
  key_trans x y z p q = ground (arith, str_lt_trans (key x) (key y) (key z))

  key_weak : (x y z : A) → key_lt x z ≡ true → key_lt y z ≡ false → key_lt x y ≡ true
  unfolding flip
  key_weak x y z p q = ground (
    arith,
    compare-flip (key y) (key z),
    path_by_compare (key y) (key z),
    str_lt_trans (key x) (key z) (key y),
  )

  pub key_order : StrictOrder key_lt
  key_order = record { asym = key_asym; trans = key_trans; weak = key_weak }

  pub key_total : (x y : A) → key x ≢ key y → (key_lt x y ≡ true) ⊎ (key_lt y x ≡ true)
  unfolding flip
  key_total x y h = ground (arith, compare-flip (key x) (key y), path_by_compare (key x) (key y))

  -- No two elements of the list have the same key.
  abbrev pub Distinct : List A → Type 0
  Distinct [] = Unit
  Distinct (x ∷ xs) = All (λ y. key x ≢ key y) xs × Distinct xs

  Distinct-perm : {xs ys : List A} → Permᴰ xs ys → Distinct xs → Distinct ys
  Distinct-perm Permᴰ.nil u = u
  Distinct-perm (Permᴰ.cons {b = b} {l₁ = l} e p) u = (
    All-perm (λ y. key b ≢ key y) p (subst (λ a. All (λ y. key a ≢ key y) l) e u.0),
    Distinct-perm p u.1,
  )
  Distinct-perm (Permᴰ.swap {l = l} e f) u = (
    (
      (λ h. u.0.0 (ap key e ∙ sym h ∙ sym (ap key f))),
      subst (λ a. All (λ y. key a ≢ key y) l) f u.1.0,
    ),
    (subst (λ a. All (λ y. key a ≢ key y) l) e u.0.1, u.1.1),
  )
  Distinct-perm (Permᴰ.trans p q) u = Distinct-perm q (Distinct-perm p u)

  pub Distinct-append :
      (xs ys : List A)
      → Distinct xs
      → Distinct ys
      → All (λ x. All (λ y. key x ≢ key y) ys) xs
      → Distinct (xs ++ ys)
  Distinct-append [] ys hx hy h = hy
  Distinct-append (x ∷ xs) ys hx hy h =
      (All-append (λ y. key x ≢ key y) xs ys hx.0 h.0, Distinct-append xs ys hx.1 hy h.1)

  sort_by-perm_eq :
      {xs ys : List A} → Permᴰ xs ys → Distinct xs → sort_by key_lt xs ≡ sort_by key_lt ys
  unfolding sort_by
  sort_by-perm_eq Permᴰ.nil u = refl
  sort_by-perm_eq (Permᴰ.cons {l₂ = m} e p) u =
      ap (insert_by key_lt _) (sort_by-perm_eq p u.1)
      ∙ ap (λ z. insert_by key_lt z (sort_by key_lt m)) e
  sort_by-perm_eq (Permᴰ.swap {a = a} {b = b} {l = l} e f) u =
      insert_by_comm key_order a b (key_total a b u.0.0) (sort_by key_lt l)
      ∙ ap₂ (λ y z. insert_by key_lt y (insert_by key_lt z (sort_by key_lt l))) f e
  sort_by-perm_eq (Permᴰ.trans p q) u = sort_by-perm_eq p u ∙ sort_by-perm_eq q (Distinct-perm p u)

  sort_by_sorted : (xs : List A) → IsSorted key_lt xs → sort_by key_lt xs ≡ xs
  unfolding sort_by insert_by
  sort_by_sorted [] h = refl
  sort_by_sorted (x ∷ []) h = refl
  sort_by_sorted (x ∷ y ∷ ys) h =
      ap (insert_by key_lt x) (sort_by_sorted (y ∷ ys) h.1) ∙ rw h.0.0 refl

  -- Elements with distinct keys have one arrangement in order, so whatever sort gives it.
  pub sorted_unique :
      (out xs : List A) → Permᴰ out xs → IsSorted key_lt out → Distinct xs → out ≡ sort_by key_lt xs
  sorted_unique out xs p s u = sym (sort_by_sorted out s) ∙ sym (sort_by-perm_eq (Permᴰ.symm p) u)
