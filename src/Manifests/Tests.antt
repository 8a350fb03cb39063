-- ===== src/Manifests/Tests.antt =====
-- The theorems on labels, arguments and mutations at small inputs.
use Prim.Native.Char.{len_utf8}
use Prim.Native.String.{len, [] as nil, ◌∷◌ as cons}
use thanos_operator.Common.{nat_eq, ◌&&◌, &&-true}
use thanos_operator.Common.{◌⊎◌, ◌≤◌}
use thanos_operator.Manifests.Names.{
  Naming, validate_and_sanitize_resource_name, validate_and_sanitize_name_to_valid_label_value,
}
use thanos_operator.Manifests.Names.Bounds.{IsAscii, validate_and_sanitize-bound}
use thanos_operator.Manifests.Services.{
  ServicePort, is_grpc_service_with_labels, check_service_port, service_port, port_named,
}
use thanos_operator.Common.{
  String, Bool, true, false, List, [], ◌∷◌, ◌++◌, ◌≡◌, ◌≢◌, ◌↔◌, refl, none, some, Labels,
  HasUniqueKeys, lookup, arith, ◌<◌, delete, if◌then◌else◌,
}
use thanos_operator.Manifests.Labels.{
  found_label, has_key, delete_others, EndpointType, regular, strict, group, group_strict, label_of,
  sanitize_store_api_endpoint_labels, has_required_labels, LabelSelector, Built, selector, panic,
  build_label_selector_from,
}
use thanos_operator.Manifests.Selectors.{build_label_selector_from_panics}
use thanos_operator.Manifests.StoreApi.{rank, IsOther, sanitize_unique}
use thanos_operator.Manifests.Args.{merge_args, is_empty_arg, has_suffix}
use thanos_operator.Manifests.Args.Groups.{with_flag, surviving}
use thanos_operator.Manifests.Args.Pruning.{select}
use thanos_operator.Manifests.Args.Merged.{given_args, merge_args-with_flag}
use thanos_operator.Manifests.Mutations.{PodTemplate, deployment, Object, Merge, mutated, mutate}
use thanos_operator.Manifests.Mutations.Selector.{selector_of, IfMutated, mutate-selector}
use thanos_operator.Manifests.Mutations.Stable.{IsStableMerge, mutate-again}

abbrev user : Labels
user = ("app", "mine") ∷ ("team", "a") ∷ []

abbrev required : Labels
required = ("app", "thanos") ∷ []

user_unique : HasUniqueKeys user
user_unique = (((λ h. cc), tt), (tt, tt))

-- A conversion of selectors that keeps the selector.
abbrev convert : LabelSelector String → Built (LabelSelector String) String
convert ls = selector ls

convert-fails : (ls : LabelSelector String) → convert ls ≢ panic
convert-fails ls h = cc

abbrev bare : LabelSelector String
bare = record { match_labels = none; match_expressions = "env" ∷ [] }

build_label_selector_from_panics_example :
    (build_label_selector_from convert (some bare) required ≡ panic)
    ↔ (ls : LabelSelector String) × (some bare ≡ some ls)
      × (ls.match_labels ≡ none)
      × (required ≢ [])
build_label_selector_from_panics_example =
    build_label_selector_from_panics convert convert-fails (some bare) required

abbrev store : Labels
store = (label_of regular, "true") ∷ (label_of strict, "true") ∷ ("app", "store") ∷ []

store_lem : lookup (label_of strict) (sanitize_store_api_endpoint_labels store) ≡ some "true"
unfolding lookup sanitize_store_api_endpoint_labels found_label has_key delete_others delete
store_lem = refl

sanitize_unique_example : strict ≡ strict
sanitize_unique_example = sanitize_unique store strict strict "true" "true" store_lem store_lem

nothing_above : (t' : EndpointType) → rank strict < rank t' → lookup (label_of t') store ≡ none
unfolding lookup
nothing_above regular h = absurd (omega arith)
nothing_above strict h = absurd (omega arith)
nothing_above group h = refl
nothing_above group_strict h = refl

app-IsOther : IsOther "app"
app-IsOther regular h = cc
app-IsOther strict h = cc
app-IsOther group h = cc
app-IsOther group_strict h = cc

abbrev existing : List String
existing = "receive" ∷ "--label=a" ∷ "--log.level=info" ∷ "--empty=" ∷ []

abbrev additional : List String
additional = "--label=b" ∷ "--log.level=debug" ∷ []

additional_given : given_args additional ≢ []
unfolding select is_empty_arg has_suffix
additional_given h = cc

abbrev label_flag : String
label_flag = "--label"

label_named : label_flag ≢ ""
label_named h = cc

merge_args-with_flag_example :
    with_flag "--label" (merge_args existing additional)
    ≡ surviving "--label" (with_flag "--label" (given_args existing ++ given_args additional))
merge_args-with_flag_example =
    merge_args-with_flag existing additional "--label" additional_given label_named

abbrev overriding : Merge
overriding a b = some b

overriding-IsStableMerge : IsStableMerge overriding
overriding-IsStableMerge = ((λ a b c h. h), λ a. refl)

abbrev pods : String → PodTemplate String
pods v = record {
  annotations = none;
  labels = some user;
  spec = record {
    affinity = v;
    containers = v;
    init_containers = v;
    node_selector = v;
    tolerations = v;
    topology_spread_constraints = v;
    volumes = v;
    termination_grace_period_seconds = v;
    security_context = v;
    service_account_name = v;
    rest = v;
  };
}

-- A Deployment whose fields all show the same value.
abbrev workload : Bool → String → Object String
workload is_new v = record {
  meta = record {
    annotations = none;
    labels = some user;
    owner_references = v ∷ [];
    creation_timestamp_is_zero = is_new;
  };
  body =
      deployment (record { selector = v; replicas = v; strategy = v; template = pods v; rest = v });
}

mutate-selector_example :
    IfMutated
      (λ r. selector_of r.body ≡ (
        if false
        then selector_of (workload true "new").body
        else selector_of (workload false "old").body))
      (mutate overriding (workload false "old") (workload true "new"))
mutate-selector_example = mutate-selector overriding (workload false "old") (workload true "new")

mutate-again_example :
    IfMutated
      (λ r. mutate overriding r (workload true "new") ≡ mutated r)
      (mutate overriding (workload false "old") (workload true "new"))
mutate-again_example =
    mutate-again overriding (workload false "old") (workload true "new") overriding-IsStableMerge

abbrev ports : List ServicePort
ports = record { name = "http"; port = 10902 } ∷ record { name = "grpc"; port = 10901 } ∷ []

grpc_lem :
    is_grpc_service_with_labels (record { labels = required; service = some ports }) required
    ≡ some 10901
unfolding is_grpc_service_with_labels check_service_port service_port port_named has_required_labels
    lookup
grpc_lem = refl

-- A library that finds every text invalid.
abbrev strict_naming : Naming
strict_naming = record {
  is_dns1123_subdomain = λ name. "invalid" ∷ [];
  is_valid_label_value = λ value. "invalid" ∷ [];
  dns1123_label_max_length = 63;
  is_alpha_numeric = λ c. true;
  to_lower = λ s. s;
  sha256_hex = λ s. "0123456789abcdef0123456789abcdef";
  decimal = λ n. "0";
}

is_ascii : String → Bool
is_ascii nil = true
is_ascii (cons c s) = nat_eq (len_utf8 c) 1 && is_ascii s

is_ascii-IsAscii : (s : String) → is_ascii s ≡ true → IsAscii s
unfolding is_ascii
is_ascii-IsAscii nil h = tt
is_ascii-IsAscii (cons c s) h =
    let (first, rest) = &&-true (nat_eq (len_utf8 c) 1) (is_ascii s) h in
    (ground arith, is_ascii-IsAscii s rest)

hex-IsAscii : (s : String) → IsAscii (strict_naming.sha256_hex s)
unfolding is_ascii
hex-IsAscii s = is_ascii-IsAscii "0123456789abcdef0123456789abcdef" refl

not_longer : (s : String) → IsAscii s → len (strict_naming.to_lower s) ≤ len s
not_longer s h = omega arith

name-IsAscii : IsAscii "thanos_query"
unfolding is_ascii
name-IsAscii = is_ascii-IsAscii "thanos_query" refl

validate_and_sanitize-bound_example :
    (((validate_and_sanitize_resource_name strict_naming "thanos_query" ≡ "thanos_query")
        × (strict_naming.is_valid_label_value "thanos_query" ≡ []))
      ⊎ (len (validate_and_sanitize_resource_name strict_naming "thanos_query") ≤ 63))
    × (((validate_and_sanitize_name_to_valid_label_value strict_naming "thanos_query"
            ≡ "thanos_query")
          × (strict_naming.is_valid_label_value "thanos_query" ≡ []))
        ⊎ (len (validate_and_sanitize_name_to_valid_label_value strict_naming "thanos_query") ≤ 63))
validate_and_sanitize-bound_example =
    validate_and_sanitize-bound strict_naming "thanos_query" hex-IsAscii not_longer name-IsAscii
