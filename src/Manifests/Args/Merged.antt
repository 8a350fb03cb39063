-- ===== src/Manifests/Args/Merged.antt =====
-- What `MergeArgs` returns, flag by flag.

use mathlib.Core.List.{append_assoc, append-nil}
use text.Mathlib.Text.{starts_with}
use thanos_operator.Common.{
  String, true, false, not, ◌==◌, eq_iff, List, [], ◌∷◌, ◌++◌, ◌≡◌, ◌≢◌, refl, sym, ap, ap₂, ◌∙◌,
  inl, inr, Bool-cases, ==-ne, if◌then◌else◌, arith, All, All-imp, All-append, All-left, All-right,
  length, nat_eq,
}
use thanos_operator.Manifests.Args.{
  MergeState, merge_start, step_existing, step_additional, loop, emit, split_command, merge_pruned,
  merge_args, extract_flag, is_empty_arg,
}
use thanos_operator.Manifests.Args.Pruning.{
  select, is_given, select-append, prune_empty_args-select, All-select, select-All, select_none,
}
use thanos_operator.Manifests.Args.Groups.{has_flag, with_flag, surviving}
use thanos_operator.Manifests.Args.Loops.{Inv, start-Inv}
use thanos_operator.Manifests.Args.Steps.{loop-Inv, step_existing-Inv, step_additional-Inv}
use thanos_operator.Manifests.Args.Emitted.{
  AreGiven, emit-AreGiven, with_flag-emit_absent, with_flag-emit_all, order-AreOrdered,
}

-- The flags of the arguments behind the command name, and the command name, if there is one.
abbrev pub command_of : List String → List String
command_of existing =
    let (cmd_name, flag_args) = split_command existing in
    if not (cmd_name == "") then cmd_name ∷ [] else []

module _ (existing additional : List String) where
  abbrev flags_of : List String
  flags_of = (split_command existing).1 ++ additional

  state : MergeState
  state =
      loop step_additional (loop step_existing merge_start (split_command existing).1) additional

  state-Inv : Inv flags_of state
  unfolding state
  state-Inv =
      let flag_args = (split_command existing).1 in
      loop-Inv step_additional step_additional-Inv flag_args
        (loop step_existing merge_start flag_args)
        (loop-Inv step_existing step_existing-Inv [] merge_start start-Inv flag_args) additional

-- The pruned arguments are their command name and the rest.
split-existing :
    (existing : List String)
    → AreGiven existing
    → command_of existing ++ (split_command existing).1 ≡ existing
unfolding split_command is_empty_arg
split-existing [] g = refl
split-existing (x ∷ xs) g =
    let ne : (x == "") ≡ false = ground (arith, g.0) in
    elim (Bool-cases (starts_with x "--")) [ inl e ↦ rw e refl | inr e ↦ rw (e, ne) refl ]

-- A command name is no flag.
command_no_flag : (existing : List String) → All (λ a. extract_flag a ≡ "") (command_of existing)
unfolding split_command extract_flag
command_no_flag [] = tt
command_no_flag (x ∷ xs) = elim (Bool-cases (starts_with x "--")) [
  | inl e ↦ rw e tt
  | inr e ↦ elim (Bool-cases (x == "")) [ inl n ↦ rw (e, n) tt | inr n ↦ rw (e, n) (rw e refl, tt) ]
]

module _ (existing additional : List String) (given : AreGiven existing)
    (given' : AreGiven additional) where
  private_given : AreGiven (command_of existing ++ (split_command existing).1)
  private_given = rw (split-existing existing given) given

  command_given : AreGiven (command_of existing)
  command_given =
      All-left (λ x. is_given x ≡ true) (command_of existing) (split_command existing).1
        private_given

  flags_given : AreGiven (flags_of existing additional)
  flags_given =
      All-append (λ x. is_given x ≡ true) (split_command existing).1 additional
        (All-right (λ x. is_given x ≡ true) (command_of existing) (split_command existing).1
          private_given)
        given'

  -- The last pruning removes nothing.
  merge_pruned-emit :
      merge_pruned existing additional
      ≡ command_of existing
        ++ emit (state existing additional) (state existing additional).order_keys
  unfolding merge_pruned state
  merge_pruned-emit =
      let st = state existing additional in
      let inv = state-Inv existing additional in
      let all = command_of existing ++ emit st st.order_keys in
      prune_empty_args-select all
      ∙ select-All is_given all (
          All-append (λ x. is_given x ≡ true) (command_of existing) (emit st st.order_keys)
            command_given
            (emit-AreGiven (flags_of existing additional) st inv flags_given st.order_keys
              (order-AreOrdered (flags_of existing additional) st inv)))

  with_flag-command : (f : String) → f ≢ "" → with_flag f (command_of existing) ≡ []
  with_flag-command f h = select_none (has_flag f) (command_of existing) (
      All-imp (command_of existing) (λ a e. ==-ne (extract_flag a) f (λ same. h (sym same ∙ e)))
        (command_no_flag existing))

  with_flag-existing :
      (f : String)
      → f ≢ ""
      → with_flag f (flags_of existing additional) ≡ with_flag f (existing ++ additional)
  with_flag-existing f h =
      let cmd = command_of existing in
      let args = (split_command existing).1 in
      sym (
        ap (λ l. with_flag f (l ++ additional)) (sym (split-existing existing given))
        ∙ ap (with_flag f) (append_assoc cmd args additional)
        ∙ select-append (has_flag f) cmd (args ++ additional)
        ∙ ap (λ l. l ++ with_flag f (args ++ additional)) (with_flag-command f h))

  merge_pruned-with_flag :
      (f : String)
      → f ≢ ""
      → with_flag f (merge_pruned existing additional)
        ≡ surviving f (with_flag f (existing ++ additional))
  merge_pruned-with_flag f h =
      let st = state existing additional in
      let l = flags_of existing additional in
      ap (with_flag f) merge_pruned-emit
      ∙ select-append (has_flag f) (command_of existing) (emit st st.order_keys)
      ∙ ap (λ z. z ++ with_flag f (emit st st.order_keys)) (with_flag-command f h)
      ∙ with_flag-emit_all l st (state-Inv existing additional) f h
      ∙ ap (surviving f) (with_flag-existing f h)

  -- No argument but the command name is without a flag.
  merge_pruned-command : with_flag "" (merge_pruned existing additional) ≡ command_of existing
  merge_pruned-command =
      let st = state existing additional in
      let l = flags_of existing additional in
      let inv = state-Inv existing additional in
      let cmd = command_of existing in
      ap (with_flag "") merge_pruned-emit
      ∙ select-append (has_flag "") cmd (emit st st.order_keys)
      ∙ ap₂ ◌++◌
          (select-All (has_flag "") cmd
            (All-imp cmd (λ a e. (eq_iff (extract_flag a) "").1 e) (command_no_flag existing)))
          (with_flag-emit_absent l st inv "" st.order_keys (order-AreOrdered l st inv)
            (All-imp st.order_keys (λ g h same. h (sym same)) inv.flags))
      ∙ append-nil cmd

-- The arguments of a call that are not empty.
abbrev pub given_args : List String → List String
given_args args = select is_given args

given_args-AreGiven : (args : List String) → AreGiven (given_args args)
given_args-AreGiven args = All-select is_given args

merge_args-merge_pruned :
    (existing additional : List String)
    → given_args additional ≢ []
    → merge_args existing additional ≡ merge_pruned (given_args existing) (given_args additional)
unfolding merge_args
merge_args-merge_pruned existing additional some_given =
    rw (prune_empty_args-select existing, prune_empty_args-select additional)
      (longer (given_args additional) some_given)
  where
    longer :
        (l : List String)
        → l ≢ []
        → (if nat_eq (length l) 0
            then given_args existing
            else merge_pruned (given_args existing) l)
          ≡ merge_pruned (given_args existing) l
    longer [] n = absurd (n refl)
    longer (x ∷ xs) n = ground arith

-- If some additional argument is not empty, the merged arguments with a flag are those of the
-- existing and then the additional non-empty arguments with that flag: all of them, in their order,
-- if the flag may be repeated, and the last one alone if it may not.
pub merge_args-with_flag :
    (existing additional : List String) (flag : String)
    → given_args additional ≢ []
    → flag ≢ ""
    → with_flag flag (merge_args existing additional)
      ≡ surviving flag (with_flag flag (given_args existing ++ given_args additional))
merge_args-with_flag existing additional flag some_given named =
    ap (with_flag flag) (merge_args-merge_pruned existing additional some_given)
    ∙ merge_pruned-with_flag (given_args existing) (given_args additional)
        (given_args-AreGiven existing) (given_args-AreGiven additional) flag named

-- If some additional argument is not empty, the only merged argument without a flag is the first
-- non-empty existing argument, if that does not begin with two dashes.
pub merge_args-command :
    (existing additional : List String)
    → given_args additional ≢ []
    → with_flag "" (merge_args existing additional) ≡ command_of (given_args existing)
merge_args-command existing additional some_given =
    ap (with_flag "") (merge_args-merge_pruned existing additional some_given)
    ∙ merge_pruned-command (given_args existing) (given_args additional)
        (given_args-AreGiven existing) (given_args-AreGiven additional)
