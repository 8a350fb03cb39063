-- ===== src/Manifests/Args.antt =====
-- internal/pkg/manifests/util.go: the command line arguments. Positions are those of bytes.
pub mod Pruning
pub mod Groups
pub mod Loops
pub mod Steps
pub mod Emitted
pub mod Merged
use text.Mathlib.Text.{starts_with, find?}
use Prim.Native.String.{slice, len}
use thanos_operator.Common.{
  ℕ, zero, suc, ◌-◌, leb, String, Bool, true, false, not, ◌&&◌, ◌||◌, ◌==◌, List, [], ◌∷◌, ◌++◌,
  Option, none, some, GoMap, Labels, lookup, insert, index, contains, length, nat_eq, if◌then◌else◌,
}
use mathlib.Core.Option

-- `strings.HasSuffix`
unfoldable pub has_suffix : String → String → Bool
has_suffix s t = leb (len t) (len s) && slice s (len s - len t) (len s) == t

unfoldable pub is_empty_arg : String → Bool
is_empty_arg arg = arg == "" || has_suffix arg "="

abbrev pub get_elem? {ℓ} : {A : Type ℓ} → List A → ℕ → Option A
get_elem? [] i = none
get_elem? (x ∷ xs) zero = some x
get_elem? (x ∷ xs) (suc i) = get_elem? xs i

-- `append(args[:i], args[i+1:]...)`
abbrev pub remove_at {ℓ} : {A : Type ℓ} → ℕ → List A → List A
remove_at i [] = []
remove_at zero (x ∷ xs) = xs
remove_at (suc i) (x ∷ xs) = x ∷ remove_at i xs

unfoldable pub prune_at : ℕ → List String → List String
prune_at i args = elim (get_elem? args i) [
  | none ↦ args
  | some arg ↦ if is_empty_arg arg then remove_at i args else args
]

-- The loop, from the last index down; the number is how many indices are left.
unfoldable pub prune_below : ℕ → List String → List String
prune_below zero args = args
prune_below (suc i) args = prune_below i (prune_at i args)

unfoldable pub prune_empty_args : List String → List String
unfolding prune_below prune_at
prune_empty_args args = prune_below (length args) args

abbrev pub thanos_repeatable_flags : List String
thanos_repeatable_flags =
    "--query.replica-label" ∷ "--query.partition-label" ∷ "--selector-label"
    ∷ "--query.telemetry.request-duration-seconds-quantiles"
    ∷ "--query.telemetry.request-samples-quantiles"
    ∷ "--query.telemetry.request-series-seconds-quantiles" ∷ "--store.sd-files" ∷ "--endpoint"
    ∷ "--endpoint-group" ∷ "--endpoint-strict" ∷ "--endpoint-group-strict"
    ∷ "--inject-test-addresses" ∷ "--label" ∷ "--rule-file" ∷ "--grpc-query-endpoint" ∷ "--query"
    ∷ "--query.sd-files" ∷ "--receive.otlp-promote-resource-attributes"
    ∷ "--query-frontend.forward-header" ∷ []

unfoldable pub is_repeatable_flag : String → Bool
is_repeatable_flag flag = contains thanos_repeatable_flags flag

unfoldable pub extract_flag : String → String
extract_flag arg =
    if not (starts_with arg "--")
    then ""
    else elim (find? arg "=") [ some idx ↦ slice arg 0 idx | none ↦ arg ]

-- The variables of `MergeArgs`.
pub record MergeState : Type 0 where
  pub arg_map : Labels
  pub order_keys : List String
  pub repeatable_args : GoMap (List String)

abbrev pub merge_start : MergeState
merge_start = record { arg_map = []; order_keys = []; repeatable_args = [] }

-- `repeatableArgs[flag]`, where a missing key gives the empty slice.
abbrev pub repeated : String → MergeState → List String
repeated flag st = Option.get_or (lookup flag st.repeatable_args) []

abbrev pub is_missing : {V : Type 0} → Option V → Bool
is_missing none = true
is_missing (some v) = false

-- `argMap[flag] = arg`, with the flag appended to the order if it is new.
unfoldable pub put_single : String → String → MergeState → MergeState
put_single flag arg st = record st {
  order_keys =
      if is_missing (lookup flag st.arg_map) then st.order_keys ++ flag ∷ [] else st.order_keys;
  arg_map = insert flag arg st.arg_map;
}

-- The body of the loop over the existing arguments.
unfoldable pub step_existing : MergeState → String → MergeState
unfolding put_single
step_existing st arg =
    let flag = extract_flag arg in
    if flag == ""
    then st
    else if is_repeatable_flag flag
    then (let args = repeated flag st ++ arg ∷ [] in
        record st {
          repeatable_args = insert flag args st.repeatable_args;
          order_keys = if nat_eq (length args) 1 then st.order_keys ++ flag ∷ [] else st.order_keys;
        })
    else put_single flag arg st

-- The body of the loop over the additional arguments.
unfoldable pub step_additional : MergeState → String → MergeState
unfolding put_single
step_additional st arg =
    let flag = extract_flag arg in
    if flag == ""
    then st
    else if is_repeatable_flag flag
    then (record st {
      order_keys =
          if is_missing (lookup flag st.repeatable_args)
          then st.order_keys ++ flag ∷ []
          else st.order_keys;
      repeatable_args = insert flag (repeated flag st ++ arg ∷ []) st.repeatable_args;
    })
    else put_single flag arg st

unfoldable pub loop : (MergeState → String → MergeState) → MergeState → List String → MergeState
loop step st [] = st
loop step st (arg ∷ args) = loop step (step st arg) args

-- What the last loop appends for a flag.
unfoldable pub emitted : MergeState → String → List String
emitted st flag = if is_repeatable_flag flag then repeated flag st else index flag st.arg_map ∷ []

unfoldable pub emit : MergeState → List String → List String
unfolding emitted
emit st [] = []
emit st (flag ∷ flags) = emitted st flag ++ emit st flags

-- The command name, if the first argument is not a flag, and the other arguments.
unfoldable pub split_command : List String → String × List String
split_command [] = ("", [])
split_command (arg ∷ args) = if not (starts_with arg "--") then (arg, args) else ("", arg ∷ args)

unfoldable pub merge_pruned : List String → List String → List String
unfolding loop step_existing step_additional emit split_command
merge_pruned existing additional =
    let (cmd_name, flag_args) = split_command existing in
    let st = loop step_additional (loop step_existing merge_start flag_args) additional in
    let command = if not (cmd_name == "") then cmd_name ∷ [] else [] in
    prune_empty_args (command ++ emit st st.order_keys)

unfoldable pub merge_args : List String → List String → List String
unfolding merge_pruned prune_empty_args
merge_args existing_args additional_args =
    let existing = prune_empty_args existing_args in
    let additional = prune_empty_args additional_args in
    if nat_eq (length additional) 0 then existing else merge_pruned existing additional
