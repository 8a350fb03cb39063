-- ===== src/Common/Preds.antt =====
-- Predicates on lists by recursion, which compute to tuples, and membership that can be matched.
use mathlib.Core.Path.{refl, subst, sym, ◌∙◌}
use mathlib.Core.Logic.{◌≢◌, inl, inr}
use mathlib.Core.List.{List, [], ◌∷◌, ◌++◌, Memᴰ, Permᴰ}
use mathlib.Core.List.Memᴰ

module _ {ℓ κ} {A : Type ℓ} where
  abbrev pub All : (A → Type κ) → List A → Type κ
  All P [] = Unit
  All P (x ∷ xs) = P x × All P xs

  pub All-append : (P : A → Type κ) (xs ys : List A) → All P xs → All P ys → All P (xs ++ ys)
  All-append P [] ys hx hy = hy
  All-append P (x ∷ xs) ys hx hy = (hx.0, All-append P xs ys hx.1 hy)

  pub All-left : (P : A → Type κ) (xs ys : List A) → All P (xs ++ ys) → All P xs
  All-left P [] ys h = tt
  All-left P (x ∷ xs) ys h = (h.0, All-left P xs ys h.1)

  pub All-right : (P : A → Type κ) (xs ys : List A) → All P (xs ++ ys) → All P ys
  All-right P [] ys h = h
  All-right P (x ∷ xs) ys h = All-right P xs ys h.1

  pub All-mem : (P : A → Type κ) {x : A} (xs : List A) → All P xs → Memᴰ x xs → P x
  All-mem P [] h m = absurd (Memᴰ.not-nil m)
  All-mem P (y ∷ xs) h (Memᴰ.head e) = subst P (sym e) h.0
  All-mem P (y ∷ xs) h (Memᴰ.tail m) = All-mem P xs h.1 m

  pub All-of_mem : (P : A → Type κ) (xs : List A) → ((x : A) → Memᴰ x xs → P x) → All P xs
  All-of_mem P [] h = tt
  All-of_mem P (x ∷ xs) h = (h x (Memᴰ.head refl), All-of_mem P xs (λ y m. h y (Memᴰ.tail m)))

  pub All-perm : (P : A → Type κ) {xs ys : List A} → Permᴰ xs ys → All P xs → All P ys
  All-perm P Permᴰ.nil h = h
  All-perm P (Permᴰ.cons e p) h = (subst P e h.0, All-perm P p h.1)
  All-perm P (Permᴰ.swap e f) h = (subst P f h.1.0, (subst P e h.0, h.1.1))
  All-perm P (Permᴰ.trans p q) h = All-perm P q (All-perm P p h)

pub All-imp {ℓ κ μ} :
    {A : Type ℓ} {P : A → Type κ} {Q : A → Type μ} (xs : List A)
    → ((x : A) → P x → Q x)
    → All P xs
    → All Q xs
All-imp [] f h = tt
All-imp (x ∷ xs) f h = (f x h.0, All-imp xs f h.1)

module _ {ℓ} {A : Type ℓ} where
  -- No element occurs twice.
  abbrev pub Unique : List A → Type ℓ
  Unique [] = Unit
  Unique (x ∷ xs) = All (λ y. x ≢ y) xs × Unique xs

  pub Unique-perm : {xs ys : List A} → Permᴰ xs ys → Unique xs → Unique ys
  Unique-perm Permᴰ.nil u = u
  Unique-perm (Permᴰ.cons {b = b} {l₁ = l} e p) u =
      (All-perm (λ y. b ≢ y) p (subst (λ a. All (λ y. a ≢ y) l) e u.0), Unique-perm p u.1)
  Unique-perm (Permᴰ.swap {l = l} e f) u = (
    ((λ h. u.0.0 (e ∙ sym h ∙ sym f)), subst (λ a. All (λ y. a ≢ y) l) f u.1.0),
    (subst (λ a. All (λ y. a ≢ y) l) e u.0.1, u.1.1),
  )
  Unique-perm (Permᴰ.trans p q) u = Unique-perm q (Unique-perm p u)

-- The loop `for _, x := range xs { out = append(out, f(x)...) }`.
unfoldable pub collect {ℓ κ} : {A : Type ℓ} {B : Type κ} → (A → List B) → List A → List B
collect f [] = []
collect f (x ∷ xs) = f x ++ collect f xs

module _ {ℓ κ} {A : Type ℓ} {B : Type κ} (f : A → List B) where
  -- What the loop collects comes from an element, and what an element gives is collected.
  pub mem-collect :
      {b : B} (xs : List A) → Memᴰ b (collect f xs) → (x : A) × Memᴰ x xs × Memᴰ b (f x)
  unfolding collect
  mem-collect [] m = absurd (Memᴰ.not-nil m)
  mem-collect (x ∷ xs) m = elim (Memᴰ.append_cases (f x) m) [
    | inl l ↦ (x, Memᴰ.head refl, l)
    | inr r ↦ let (y, my, mb) = mem-collect xs r in (y, Memᴰ.tail my, mb)
  ]

  pub mem-collect_of_mem :
      {b : B} {x : A} (xs : List A) → Memᴰ x xs → Memᴰ b (f x) → Memᴰ b (collect f xs)
  unfolding collect
  mem-collect_of_mem [] m h = absurd (Memᴰ.not-nil m)
  mem-collect_of_mem {b} (y ∷ xs) (Memᴰ.head e) h =
      Memᴰ.append_left (collect f xs) (subst (λ z. Memᴰ b (f z)) e h)
  mem-collect_of_mem (y ∷ xs) (Memᴰ.tail m) h = Memᴰ.append_right (f y) (mem-collect_of_mem xs m h)

  pub All-collect :
      (P : B → Type 0) (xs : List A) → All (λ x. All P (f x)) xs → All P (collect f xs)
  unfolding collect
  All-collect P [] h = tt
  All-collect P (x ∷ xs) h = All-append P (f x) (collect f xs) h.0 (All-collect P xs h.1)

pub mem-perm {ℓ} : {A : Type ℓ} {x : A} {xs ys : List A} → Permᴰ xs ys → Memᴰ x xs → Memᴰ x ys
mem-perm Permᴰ.nil m = m
mem-perm {x} (Permᴰ.cons e p) (Memᴰ.head f) = Memᴰ.head (f ∙ e)
mem-perm (Permᴰ.cons e p) (Memᴰ.tail m) = Memᴰ.tail (mem-perm p m)
mem-perm (Permᴰ.swap e f) (Memᴰ.head g) = Memᴰ.tail (Memᴰ.head (g ∙ e))
mem-perm (Permᴰ.swap e f) (Memᴰ.tail (Memᴰ.head g)) = Memᴰ.head (g ∙ f)
mem-perm (Permᴰ.swap e f) (Memᴰ.tail (Memᴰ.tail m)) = Memᴰ.tail (Memᴰ.tail m)
mem-perm (Permᴰ.trans p q) m = mem-perm q (mem-perm p m)
