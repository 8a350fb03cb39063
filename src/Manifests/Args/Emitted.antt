-- ===== src/Manifests/Args/Emitted.antt =====
-- What the last loop of `MergeArgs` appends.
use mathlib.Core.Option
use mathlib.Core.List.{append-nil}
use thanos_operator.Common.{
  String, Bool, true, false, ◌==◌, eq_iff, List, [], ◌∷◌, ◌++◌, ◌≡◌, ◌≢◌, refl, sym, ap₂, ◌∙◌, inl,
  inr, Option, none, some, Bool-cases, ==-eq, ==-ne, if◌then◌else◌, arith, All, All-imp, All-append,
  All-mem, All-of_mem, mem→contains, Unique, lookup, contains, index,
}
use thanos_operator.Manifests.Args.{MergeState, emitted, emit, extract_flag, is_repeatable_flag}
use thanos_operator.Manifests.Args.Pruning.{
  select, is_given, select-append, All-select, select-All, select_none,
}
use thanos_operator.Manifests.Args.Groups.{has_flag, with_flag, last_of, surviving}
use thanos_operator.Manifests.Args.Loops.{Inv, as_list, nonempty, is_nonempty}

abbrev pub AreGiven : List String → Type 0
AreGiven = All (λ x. is_given x ≡ true)

All-select_of {ℓ κ} :
    {A : Type ℓ} (P : A → Type κ) (p : A → Bool) (xs : List A) → All P xs → All P (select p xs)
unfolding select
All-select_of P p [] h = tt
All-select_of P p (x ∷ xs) h = elim (Bool-cases (p x)) [
  | inl e ↦ rw e (h.0, All-select_of P p xs h.1)
  | inr e ↦ rw e (All-select_of P p xs h.1)
]

All-last_of {ℓ κ} : {A : Type ℓ} (P : A → Type κ) (xs : List A) → All P xs → All P (last_of xs)
unfolding last_of
All-last_of P [] h = tt
All-last_of P (x ∷ []) h = h
All-last_of P (x ∷ y ∷ xs) h = All-last_of P (y ∷ xs) h.1

All-surviving :
    (P : String → Type 0) (f : String) (xs : List String) → All P xs → All P (surviving f xs)
unfolding surviving
All-surviving P f xs h = elim (Bool-cases (is_repeatable_flag f)) [
  | inl e ↦ rw e h
  | inr e ↦ rw e (All-last_of P xs h)
]

surviving-nil : (f : String) → surviving f [] ≡ []
unfolding surviving last_of
surviving-nil f = ground arith

-- What the last loop appends for a flag that is in the order.
module _ (l : List String) (st : MergeState) (inv : Inv l st) where
  as_list-index :
      (f x : String) (xs : List String) (o : Option String)
      → as_list o ≡ last_of (x ∷ xs)
      → Option.get_or o "" ∷ [] ≡ last_of (x ∷ xs)
  unfolding last_of
  as_list-index f x xs (some v) h = h
  as_list-index f x [] none h = cc
  as_list-index f x (y ∷ xs) none h = as_list-index f y xs none h

  emitted-surviving :
      (f : String)
      → f ≢ ""
      → contains st.order_keys f ≡ true
      → emitted st f ≡ surviving f (with_flag f l)
  unfolding emitted surviving
  emitted-surviving f h c =
      let some_args = sym (inv.order f h) ∙ c in
      elim (Bool-cases (is_repeatable_flag f)) [
        | inl r ↦ rw (r, inv.many f h r) (get (with_flag f l))
        | inr r ↦ rw r (one (with_flag f l) some_args (inv.single f h r))
      ]
    where
      get : (xs : List String) → Option.get_or (nonempty xs) [] ≡ xs
      get [] = refl
      get (x ∷ xs) = refl

      one :
          (xs : List String)
          → is_nonempty xs ≡ true
          → as_list (lookup f st.arg_map) ≡ last_of xs
          → index f st.arg_map ∷ [] ≡ last_of xs
      one [] n e = cc
      one (x ∷ xs) n e = as_list-index f x xs (lookup f st.arg_map) e

  -- The flags of the order, each among the order's flags and none of them empty.
  abbrev pub AreOrdered : List String → Type 0
  AreOrdered = All (λ f. (f ≢ "") × (contains st.order_keys f ≡ true))

  emitted-HasFlag :
      (f : String)
      → f ≢ ""
      → contains st.order_keys f ≡ true
      → All (λ a. has_flag f a ≡ true) (emitted st f)
  emitted-HasFlag f h c =
      rw (emitted-surviving f h c)
        (All-surviving (λ a. has_flag f a ≡ true) f (with_flag f l) (All-select (has_flag f) l))

  emitted-AreGiven :
      AreGiven l → (f : String) → f ≢ "" → contains st.order_keys f ≡ true → AreGiven (emitted st f)
  emitted-AreGiven given f h c = rw (emitted-surviving f h c) (
      All-surviving (λ x. is_given x ≡ true) f (with_flag f l)
        (All-select_of (λ x. is_given x ≡ true) (has_flag f) l given))

  pub emit-AreGiven : AreGiven l → (fs : List String) → AreOrdered fs → AreGiven (emit st fs)
  unfolding emit
  emit-AreGiven given [] h = tt
  emit-AreGiven given (f ∷ fs) h =
      All-append (λ x. is_given x ≡ true) (emitted st f) (emit st fs)
        (emitted-AreGiven given f h.0.0 h.0.1) (emit-AreGiven given fs h.1)

  -- Among what is appended for one flag there is nothing of another.
  emitted_other :
      (f g : String)
      → g ≢ ""
      → contains st.order_keys g ≡ true
      → g ≢ f
      → with_flag f (emitted st g) ≡ []
  emitted_other f g h c other = select_none (has_flag f) (emitted st g) (
      All-imp (emitted st g)
        (λ a e. ==-ne (extract_flag a) f (λ same. other (sym (==-eq (extract_flag a) g e) ∙ same)))
        (emitted-HasFlag g h c))

  pub with_flag-emit_absent :
      (f : String) (fs : List String)
      → AreOrdered fs
      → All (λ g. f ≢ g) fs
      → with_flag f (emit st fs) ≡ []
  unfolding emit select
  with_flag-emit_absent f [] h a = refl
  with_flag-emit_absent f (g ∷ gs) h a =
      select-append (has_flag f) (emitted st g) (emit st gs)
      ∙ ap₂ ◌++◌ (emitted_other f g h.0.0 h.0.1 (λ same. a.0 (sym same)))
          (with_flag-emit_absent f gs h.1 a.1)

  with_flag-emit :
      (f : String) (fs : List String)
      → f ≢ ""
      → AreOrdered fs
      → Unique fs
      → with_flag f (emit st fs) ≡ (if contains fs f then surviving f (with_flag f l) else [])
  unfolding emit contains select
  with_flag-emit f [] h o u = refl
  with_flag-emit f (g ∷ gs) h o u = elim (Bool-cases (g == f)) [
    | inl e ↦
        let same : g ≡ f = ==-eq g f e in
        rw e (
          select-append (has_flag f) (emitted st g) (emit st gs)
          ∙ ap₂ ◌++◌
              (rw (← same) (
                select-All (has_flag g) (emitted st g) (emitted-HasFlag g o.0.0 o.0.1)
                ∙ emitted-surviving g o.0.0 o.0.1))
              (with_flag-emit_absent f gs o.1 (rw (← same) u.0))
          ∙ append-nil (surviving f (with_flag f l)))
    | inr e ↦ rw e (
        select-append (has_flag f) (emitted st g) (emit st gs)
        ∙ ap₂ ◌++◌ (emitted_other f g o.0.0 o.0.1 (λ same. cc ((eq_iff g f).1 same)))
            (with_flag-emit f gs h o.1 u.1))
  ]

  -- All keys of the order, at once.
  pub order-AreOrdered : AreOrdered st.order_keys
  order-AreOrdered =
      All-of_mem (λ f. (f ≢ "") × (contains st.order_keys f ≡ true)) st.order_keys
        λ f m. (All-mem (λ f. f ≢ "") st.order_keys inv.flags m, mem→contains st.order_keys f m)

  pub with_flag-emit_all :
      (f : String) → f ≢ "" → with_flag f (emit st st.order_keys) ≡ surviving f (with_flag f l)
  with_flag-emit_all f h =
      with_flag-emit f st.order_keys h order-AreOrdered inv.unique
      ∙ elim (Bool-cases (contains st.order_keys f)) [
        | inl e ↦ rw e refl
        | inr e ↦ rw e (absent (with_flag f l) (sym (inv.order f h) ∙ e))
      ]
    where
      absent : (xs : List String) → is_nonempty xs ≡ false → [] ≡ surviving f xs
      absent [] n = sym (surviving-nil f)
      absent (x ∷ xs) n = cc
