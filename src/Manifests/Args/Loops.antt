-- ===== src/Manifests/Args/Loops.antt =====
-- The two loops of `MergeArgs`: what the variables hold after the arguments that are behind them.
use mathlib.Core.Option
use thanos_operator.Common.{
  String, Bool, true, false, not, ◌||◌, ◌==◌, eq_iff, eq_refl, List, [], ◌∷◌, ◌++◌, ◌≡◌, ◌≢◌, refl,
  sym, ap, ◌∙◌, inl, inr, Option, none, some, Bool-cases, ==-eq, ==-ne, if◌then◌else◌, arith, All,
  All-append, Unique, lookup, insert, lookup-insert, contains,
}
use thanos_operator.Manifests.Args.{
  MergeState, merge_start, is_missing, extract_flag, is_repeatable_flag,
}
use thanos_operator.Manifests.Args.Pruning.{select}
use thanos_operator.Manifests.Args.Groups.{with_flag, last_of, last_of-snoc, with_flag-snoc}

abbrev pub as_list : Option String → List String
as_list none = []
as_list (some v) = v ∷ []

abbrev pub nonempty : List String → Option (List String)
nonempty [] = none
nonempty (x ∷ xs) = some (x ∷ xs)

abbrev pub is_nonempty : List String → Bool
is_nonempty [] = false
is_nonempty (x ∷ xs) = true

-- The variables after the arguments `l`.
pub record Inv (l : List String) (st : MergeState) : Type 0 where
  pub single :
      (f : String)
      → f ≢ ""
      → is_repeatable_flag f ≡ false
      → as_list (lookup f st.arg_map) ≡ last_of (with_flag f l)
  pub many :
      (f : String)
      → f ≢ ""
      → is_repeatable_flag f ≡ true
      → lookup f st.repeatable_args ≡ nonempty (with_flag f l)
  pub order : (f : String) → f ≢ "" → contains st.order_keys f ≡ is_nonempty (with_flag f l)
  pub unique : Unique st.order_keys
  pub flags : All (λ f. f ≢ "") st.order_keys

pub start-Inv : Inv [] merge_start
unfolding lookup last_of contains select
start-Inv = record {
  single = λ f h r. refl;
  many = λ f h r. refl;
  order = λ f h. refl;
  unique = tt;
  flags = tt;
}

contains-snoc :
    (xs : List String) (g f : String) → contains (xs ++ g ∷ []) f ≡ (contains xs f || g == f)
unfolding contains
contains-snoc [] g f = ground arith
contains-snoc (x ∷ xs) g f = ground (arith, contains-snoc xs g f)

contains-All : (xs : List String) (g : String) → contains xs g ≡ false → All (λ x. x ≢ g) xs
unfolding contains
contains-All [] g h = tt
contains-All (x ∷ xs) g h = (λ same. ground (arith, eq_iff x g), contains-All xs g (ground arith))

Unique-snoc :
    (xs : List String) (g : String) → Unique xs → All (λ x. x ≢ g) xs → Unique (xs ++ g ∷ [])
Unique-snoc [] g u h = (tt, tt)
Unique-snoc (x ∷ xs) g u h =
    (All-append (λ y. x ≢ y) xs (g ∷ []) u.0 (h.0, tt), Unique-snoc xs g u.1 h.1)

-- Appending a new flag to the order, where `new` says whether it is new.
abbrev pub ordered : Bool → String → List String → List String
ordered new g keys = if new then keys ++ g ∷ [] else keys

pub is_missing-nonempty : (l : List String) → is_missing (nonempty l) ≡ not (is_nonempty l)
is_missing-nonempty [] = refl
is_missing-nonempty (x ∷ xs) = refl

pub get_or-nonempty : (l : List String) → Option.get_or (nonempty l) [] ≡ l
get_or-nonempty [] = refl
get_or-nonempty (x ∷ xs) = refl

nonempty-snoc : (l : List String) (a : String) → nonempty (l ++ a ∷ []) ≡ some (l ++ a ∷ [])
nonempty-snoc [] a = refl
nonempty-snoc (x ∷ xs) a = refl

is_nonempty-snoc : (l : List String) (a : String) → is_nonempty (l ++ a ∷ []) ≡ true
is_nonempty-snoc [] a = refl
is_nonempty-snoc (x ∷ xs) a = refl

pub last_of-nonempty :
    (l : List String) (o : Option String)
    → as_list o ≡ last_of l
    → is_missing o ≡ not (is_nonempty l)
unfolding last_of
last_of-nonempty [] none h = refl
last_of-nonempty [] (some v) h = cc
last_of-nonempty (x ∷ xs) (some v) h = refl
last_of-nonempty (x ∷ []) none h = cc
last_of-nonempty (x ∷ y ∷ xs) none h = last_of-nonempty (y ∷ xs) none h

module _ (l : List String) (st : MergeState) (inv : Inv l st) (a : String) where
  abbrev pub flag : String
  flag = extract_flag a

  -- Another flag's arguments do not change.
  pub with_other : (f : String) → flag ≢ f → with_flag f (l ++ a ∷ []) ≡ with_flag f l
  with_other f other = with_flag-snoc f l a ∙ rw (==-ne (extract_flag a) f other) refl

  with_same : with_flag flag (l ++ a ∷ []) ≡ with_flag flag l ++ a ∷ []
  with_same = with_flag-snoc (extract_flag a) l a ∙ rw (eq_refl (extract_flag a)) refl

  module _ (named : flag ≢ "") where
    abbrev pub order' : List String
    order' = ordered (not (contains st.order_keys flag)) flag st.order_keys

    order'-contains_self : contains order' flag ≡ true
    order'-contains_self = ground (arith, contains-snoc st.order_keys flag flag, eq_refl flag)

    order'-contains_other :
        (f : String) → (flag == f) ≡ false → contains order' f ≡ contains st.order_keys f
    order'-contains_other f e = ground (arith, contains-snoc st.order_keys flag f)

    order'-contains :
        (f : String) → f ≢ "" → contains order' f ≡ is_nonempty (with_flag f (l ++ a ∷ []))
    order'-contains f h = elim (Bool-cases (flag == f)) [
      | inl e ↦
          let same : flag ≡ f = ==-eq flag f e in
          rw (sym same) (
            order'-contains_self
            ∙ sym (ap is_nonempty with_same ∙ is_nonempty-snoc (with_flag flag l) a))
      | inr e ↦
          let other : flag ≢ f = λ same. cc ((eq_iff flag f).1 same) in
          order'-contains_other f e ∙ inv.order f h ∙ sym (ap is_nonempty (with_other f other))
    ]

    order'-Unique : Unique order'
    order'-Unique = elim (Bool-cases (contains st.order_keys flag)) [
      | inl e ↦ rw e inv.unique
      | inr e ↦ rw e (Unique-snoc st.order_keys flag inv.unique (contains-All st.order_keys flag e))
    ]

    order'-flags : All (λ f. f ≢ "") order'
    order'-flags = elim (Bool-cases (contains st.order_keys flag)) [
      | inl e ↦ rw e inv.flags
      | inr e ↦ rw e (All-append (λ f. f ≢ "") st.order_keys (flag ∷ []) inv.flags (named, tt))
    ]

    -- The state after a flag that may be repeated.
    unfoldable pub many_state : MergeState
    many_state = record st {
      order_keys = order';
      repeatable_args = insert flag (with_flag flag l ++ a ∷ []) st.repeatable_args;
    }

    pub many-Inv : is_repeatable_flag flag ≡ true → Inv (l ++ a ∷ []) many_state
    unfolding many_state
    many-Inv rep = record {
      single = λ f h r.
          let other : flag ≢ f = λ same. cc (ap is_repeatable_flag same) in
          inv.single f h r ∙ sym (ap last_of (with_other f other));
      many = λ f h r. elim (Bool-cases (flag == f)) [
        | inl e ↦
            let same : flag ≡ f = ==-eq flag f e in
            lookup-insert flag f (with_flag flag l ++ a ∷ []) st.repeatable_args
            ∙ rw e
                (rw (sym same) (sym (ap nonempty with_same ∙ nonempty-snoc (with_flag flag l) a)))
        | inr e ↦
            let other : flag ≢ f = λ same. cc ((eq_iff flag f).1 same) in
            lookup-insert flag f (with_flag flag l ++ a ∷ []) st.repeatable_args
            ∙ rw e (inv.many f h r ∙ sym (ap nonempty (with_other f other)))
      ];
      order = order'-contains;
      unique = order'-Unique;
      flags = order'-flags;
    }

    -- The state after a flag that may not.
    unfoldable pub single_state : MergeState
    single_state = record st { order_keys = order'; arg_map = insert flag a st.arg_map }

    pub single-Inv : is_repeatable_flag flag ≡ false → Inv (l ++ a ∷ []) single_state
    unfolding single_state
    single-Inv rep = record {
      single = λ f h r. elim (Bool-cases (flag == f)) [
        | inl e ↦
            let same : flag ≡ f = ==-eq flag f e in
            ap as_list (lookup-insert flag f a st.arg_map)
            ∙ rw e (rw (sym same) (sym (ap last_of with_same ∙ last_of-snoc (with_flag flag l) a)))
        | inr e ↦
            let other : flag ≢ f = λ same. cc ((eq_iff flag f).1 same) in
            ap as_list (lookup-insert flag f a st.arg_map)
            ∙ rw e (inv.single f h r ∙ sym (ap last_of (with_other f other)))
      ];
      many = λ f h r.
          let other : flag ≢ f = λ same. cc (ap is_repeatable_flag same) in
          inv.many f h r ∙ sym (ap nonempty (with_other f other));
      order = order'-contains;
      unique = order'-Unique;
      flags = order'-flags;
    }
