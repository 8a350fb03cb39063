-- ===== src/Manifests/Args/Steps.antt =====
-- The bodies of the two loops keep the invariant, and so do the loops.

use mathlib.Core.List.{append_assoc, append-nil}
use thanos_operator.Common.{
  String, true, false, not, ◌==◌, eq_iff, List, [], ◌∷◌, ◌++◌, ◌≡◌, ◌≢◌, refl, sym, ap, ◌∙◌, inl,
  inr, Bool-cases, ==-eq, ==-ne, arith, lookup, contains, length, nat_eq,
}
use thanos_operator.Manifests.Args.{
  MergeState, repeated, is_missing, put_single, step_existing, step_additional, loop, extract_flag,
  is_repeatable_flag,
}
use thanos_operator.Manifests.Args.Groups.{with_flag, last_of}
use thanos_operator.Manifests.Args.Loops.{
  Inv, nonempty, is_nonempty, is_missing-nonempty, get_or-nonempty, last_of-nonempty, many_state,
  single_state, many-Inv, single-Inv, with_other,
}

abbrev pub KeepsInv : (MergeState → String → MergeState) → Type 0
KeepsInv step =
    (l : List String) (st : MergeState) → Inv l st → (a : String) → Inv (l ++ a ∷ []) (step st a)

skipped-Inv :
    (l : List String) (st : MergeState) (a : String)
    → Inv l st
    → extract_flag a ≡ ""
    → Inv (l ++ a ∷ []) st
skipped-Inv l st a inv e =
    let same = λ (f : String) (h : f ≢ ""). with_other l st inv a f (λ s. h (sym s ∙ e)) in
    record {
      single = λ f h r. inv.single f h r ∙ sym (ap last_of (same f h));
      many = λ f h r. inv.many f h r ∙ sym (ap nonempty (same f h));
      order = λ f h. inv.order f h ∙ sym (ap is_nonempty (same f h));
      unique = inv.unique;
      flags = inv.flags;
    }

module _ (l : List String) (st : MergeState) (inv : Inv l st) (a : String)
    (named : extract_flag a ≢ "") where
  repeated_flag :
      is_repeatable_flag (extract_flag a) ≡ true
      → repeated (extract_flag a) st ≡ with_flag (extract_flag a) l
  repeated_flag r =
      rw (inv.many (extract_flag a) named r) (get_or-nonempty (with_flag (extract_flag a) l))

  missing_many :
      is_repeatable_flag (extract_flag a) ≡ true
      → is_missing (lookup (extract_flag a) st.repeatable_args)
        ≡ not (contains st.order_keys (extract_flag a))
  missing_many r =
      ap is_missing (inv.many (extract_flag a) named r)
      ∙ is_missing-nonempty (with_flag (extract_flag a) l)
      ∙ ap not (sym (inv.order (extract_flag a) named))

  missing_single :
      is_repeatable_flag (extract_flag a) ≡ false
      → is_missing (lookup (extract_flag a) st.arg_map)
        ≡ not (contains st.order_keys (extract_flag a))
  missing_single r =
      last_of-nonempty (with_flag (extract_flag a) l) (lookup (extract_flag a) st.arg_map)
        (inv.single (extract_flag a) named r)
      ∙ ap not (sym (inv.order (extract_flag a) named))

  -- A slice to which one element was appended has length 1 exactly if it was empty.
  length_one :
      (xs : List String) (x : String) → nat_eq (length (xs ++ x ∷ [])) 1 ≡ not (is_nonempty xs)
  length_one [] x = refl
  length_one (y ∷ []) x = refl
  length_one (y ∷ z ∷ ys) x = ground arith

  step_additional-many :
      is_repeatable_flag (extract_flag a) ≡ true
      → step_additional st a ≡ many_state l st inv a named
  unfolding step_additional many_state
  step_additional-many r =
      rw (==-ne (extract_flag a) "" named, r, missing_many r, repeated_flag r) refl

  step_existing-many :
      is_repeatable_flag (extract_flag a) ≡ true → step_existing st a ≡ many_state l st inv a named
  unfolding step_existing many_state
  step_existing-many r =
      rw
        (
          ==-ne (extract_flag a) "" named,
          r,
          repeated_flag r,
          length_one (with_flag (extract_flag a) l) a,
          ← (inv.order (extract_flag a) named),
        )
        refl

  put_single-state :
      is_repeatable_flag (extract_flag a) ≡ false
      → put_single (extract_flag a) a st ≡ single_state l st inv a named
  unfolding put_single single_state
  put_single-state r = rw (missing_single r) refl

pub step_additional-Inv : KeepsInv step_additional
unfolding step_additional
step_additional-Inv l st inv a = elim (Bool-cases (extract_flag a == "")) [
  | inl e ↦ rw e (skipped-Inv l st a inv (==-eq (extract_flag a) "" e))
  | inr e ↦
      let named : extract_flag a ≢ "" = λ same. cc ((eq_iff (extract_flag a) "").1 same) in
      elim (Bool-cases (is_repeatable_flag (extract_flag a))) [
        | inl r ↦ rw (step_additional-many l st inv a named r) (many-Inv l st inv a named r)
        | inr r ↦ rw (e, r, put_single-state l st inv a named r) (single-Inv l st inv a named r)
      ]
]

pub step_existing-Inv : KeepsInv step_existing
unfolding step_existing
step_existing-Inv l st inv a = elim (Bool-cases (extract_flag a == "")) [
  | inl e ↦ rw e (skipped-Inv l st a inv (==-eq (extract_flag a) "" e))
  | inr e ↦
      let named : extract_flag a ≢ "" = λ same. cc ((eq_iff (extract_flag a) "").1 same) in
      elim (Bool-cases (is_repeatable_flag (extract_flag a))) [
        | inl r ↦ rw (step_existing-many l st inv a named r) (many-Inv l st inv a named r)
        | inr r ↦ rw (e, r, put_single-state l st inv a named r) (single-Inv l st inv a named r)
      ]
]

pub loop-Inv :
    (step : MergeState → String → MergeState)
    → KeepsInv step
    → (l : List String) (st : MergeState) → Inv l st
    → (args : List String) → Inv (l ++ args) (loop step st args)
unfolding loop
loop-Inv step keeps l st inv [] = rw (append-nil l) inv
loop-Inv step keeps l st inv (a ∷ args) =
    rw (← (append_assoc l (a ∷ []) args))
      (loop-Inv step keeps (l ++ a ∷ []) (step st a) (keeps l st inv a) args)
