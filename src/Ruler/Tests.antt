-- ===== src/Ruler/Tests.antt =====
-- The theorems on rules and the ruler at small inputs.
use Prim.Native.Nat.{◌*◌}
use Prim.Native.String.{len, ◌++◌ as concat}
use mathlib.Core.List.{Memᴰ, Permᴰ}
use thanos_operator.Common.{
  eq_iff, suc, ◌+◌, ◌≤◌, ◌<◌, none, some, Option, String, Bool, true, false, List, [], ◌∷◌, Labels,
  HasUniqueKeys, All, lookup, insert, length, collect, sort_by, ◌≡◌, ◌≢◌, ◌↔◌, ◌⊎◌, refl, copy,
}
use thanos_operator.Controllers.Cleaning.{Deletes}
use thanos_operator.Controllers.Query.{Service, Discovery, endpoints}
use thanos_operator.Controllers.Reconciling.{Resource}
use thanos_operator.Controllers.Sample.{
  objects, cluster, faithful_cluster, admits-labelled, ns_given, operator, resource,
}
use thanos_operator.FeatureGate.{prometheus_rule_enabled, feature_enabled}
use thanos_operator.Handlers.{Object}
use thanos_operator.Handlers.Applying.{Named}
use thanos_operator.Manifests.Labels.{
  LabelSelector, Built, selector, build_label_selector_from, copy_into, has_required_labels,
}
use thanos_operator.Manifests.Mutations.{role}
use thanos_operator.Manifests.Services.{
  is_grpc_service_with_labels, is_remote_write_service_with_labels, check_service_port,
  service_port, port_named,
}
use thanos_operator.Ruler.Building.{RulerSetup, get_names, user_rules, prom_rules}
use thanos_operator.Ruler.Cleaning.{IsDerived, prune_orphaned_derived_config_maps-Deletes}
use thanos_operator.Ruler.ConfigMaps.{
  make_rules_config_maps-refused, make_rules_config_maps-perm, make_rules_config_maps-Fits,
  make_rules_config_maps-few,
}
use thanos_operator.Ruler.Creating.{
  RuleSources, get_rule_config_maps, rule_selector, user_with, user_listed, create_gathered,
  prom_rule_derived_config_map_label, user_config_map_source_label,
}
use thanos_operator.Ruler.Discovery.{
  Endpoint, RulerSpec, RuleTenancyConfig, get_query_api_service_endpoints,
  get_receive_service_endpoints, query_endpoint, query_endpoint_at, receive_endpoint,
  receive_endpoints_with, found_with, listed,
}
use thanos_operator.Ruler.Gathering.{
  RuleLibrary, RuleConfigMaps, KeySelector, no_rules, success, gather_user,
}
use thanos_operator.Ruler.Packed.{entries_of, total_size, Fits}
use thanos_operator.Ruler.Packing.{
  config_maps, file_too_large, make_rules_config_maps, make_checked, pack_files, pack_content,
  packed, bucket_size,
}
use thanos_operator.Ruler.Syncing.{prune_orphaned_derived_config_maps}
use thanos_operator.Ruler.Tenancy.{
  RuleGroup, Pairwise, IsScopedGroup, process_rule_groups_with_tenancy,
  process_rule_groups_with_tenancy-scoped,
}

-- Two files that do not fit into one ConfigMap of four bytes.
abbrev files : Labels
files = ("b", "xyz") ∷ ("a", "uv") ∷ []

abbrev two_maps : List Labels
two_maps = (("a", "uv") ∷ []) ∷ (("b", "xyz") ∷ []) ∷ []

files_unique : HasUniqueKeys files
files_unique = (((λ h. cc ((eq_iff "b" "a").1 h)), tt), (tt, tt))

made : make_rules_config_maps 4 files ≡ config_maps two_maps
unfolding make_rules_config_maps make_checked pack_files pack_content packed bucket_size sort_by
    insert lookup
made = refl

make_rules_config_maps-perm_example : Permᴰ (entries_of two_maps) files
make_rules_config_maps-perm_example = make_rules_config_maps-perm 4 files two_maps files_unique made

make_rules_config_maps-Fits_example : All (Fits 4) two_maps
make_rules_config_maps-Fits_example = make_rules_config_maps-Fits 4 files two_maps files_unique made

make_rules_config_maps-few_example : length two_maps * suc 4 ≤ 2 * total_size two_maps + suc 4
make_rules_config_maps-few_example = make_rules_config_maps-few 4 files two_maps files_unique made

make_rules_config_maps-refused_example :
    ((name : String) × (make_rules_config_maps 2 files ≡ file_too_large name))
    ↔ ((name content : String) × Memᴰ (name, content) files × (2 < len content))
make_rules_config_maps-refused_example = make_rules_config_maps-refused 2 files

-- An enforcer that appends the matcher.
abbrev append_matcher : String → String → String → Option String
append_matcher expr label value = some (concat expr (concat label value))

abbrev tenancy : RuleTenancyConfig
tenancy = record { tenant_specifier_label = none; enforced_tenant_identifier = none }

abbrev groups : List (RuleGroup (Unit {0}))
groups = record { labels = none; rules = record { expr = "up"; rest = tt } ∷ [] } ∷ []

abbrev team : String
team = "team-a"

team_given : team ≢ ""
team_given h = cc

process_rule_groups_with_tenancy-scoped_example :
    Pairwise
      (IsScopedGroup append_matcher "tenant_id" team)
      groups
      (process_rule_groups_with_tenancy append_matcher groups (some tenancy) team)
process_rule_groups_with_tenancy-scoped_example =
    process_rule_groups_with_tenancy-scoped append_matcher groups tenancy team team_given

-- One Service, which is a query API and no receiver.
abbrev querier : Service
querier = record {
  name = "query";
  namespace = "ns";
  labels = ("app.kubernetes.io/part-of", "thanos") ∷ ("operator.thanos.io/query-api", "true") ∷ [];
  ports = record { name = "grpc"; port = 10901 } ∷ [];
}

abbrev sel_of : LabelSelector (Unit {0}) → Built Labels String
sel_of ls = elim ls.match_labels [ none ↦ selector [] | some m ↦ selector m ]

abbrev library : RuleLibrary (Unit {0})
library = record {
  Json = Unit;
  Data = Unit;
  marshal = λ gs. none;
  unmarshal = λ json. none;
  to_yaml = λ d. none;
  unmarshal_yaml = λ text. none;
  enforce = append_matcher;
}

abbrev discovery : Discovery Bool (Unit {0})
discovery = record {
  Selector = Labels;
  as_selector = sel_of;
  list_services = λ s sel namespace. some (querier ∷ []);
  matches = λ sel labels. has_required_labels labels sel;
}

abbrev sources : RuleSources Bool (Unit {0}) (Unit {0})
sources = record {
  Selector = Labels;
  as_selector = sel_of;
  without_derived = λ sel. some sel;
  list_config_maps = λ s sel namespace. some [];
  list_rules = λ s sel namespace. some [];
}

abbrev config_map_object : Object → String → Labels → Labels → Named String
config_map_object owner name labels data_ = record {
  namespace = "";
  is_namespaced = true;
  object = record {
    meta = record {
      annotations = none;
      labels = none;
      owner_references = [];
      creation_timestamp_is_zero = true;
    };
    body = role "rules";
  };
}

abbrev setup : RulerSetup String Bool
setup = record {
  Expression = Unit;
  Rest = Unit;
  Common = Unit;
  max_config_map_data_size = 4;
  config_map_object = config_map_object;
  library = library;
  sources = sources;
  discovery = discovery;
  common_to_opts = λ r. tt;
  build = λ opts. [];
}

-- A stateless ruler.
abbrev ruler : Resource (RulerSpec (Unit {0}))
ruler = resource (record {
  replicas = 1;
  query_label_selector = none;
  rule_config_selector = record { match_labels = some []; match_expressions = [] };
  rule_tenancy_config = none;
  is_stateful = false;
  stateless = some none;
})

abbrev query_endpoint_found : Endpoint
query_endpoint_found = record { service_name = "query"; port = 10901; namespace = "ns" }

queried :
    get_query_api_service_endpoints discovery ruler true ≡ endpoints (query_endpoint_found ∷ [])
unfolding get_query_api_service_endpoints found_with listed query_endpoint query_endpoint_at
    build_label_selector_from is_grpc_service_with_labels check_service_port service_port port_named
    has_required_labels lookup
queried = refl

unreceived : get_receive_service_endpoints discovery ruler true ≡ endpoints []
unfolding get_receive_service_endpoints receive_endpoints_with found_with listed receive_endpoint
    build_label_selector_from is_remote_write_service_with_labels check_service_port service_port
    port_named has_required_labels lookup collect
unreceived = refl

gathered : user_rules operator setup ruler true ≡ success true no_rules
unfolding get_rule_config_maps rule_selector user_with user_listed create_gathered gather_user
    build_label_selector_from copy_into copy insert
gathered = refl

not_added :
    prom_rules operator setup (prometheus_rule_enabled operator.features) ruler true
    ≡ success true no_rules
unfolding prom_rules prometheus_rule_enabled feature_enabled
not_added = refl

prune_orphaned_derived_config_maps-Deletes_example :
    Deletes cluster faithful_cluster
      (λ x.
        IsDerived operator setup faithful_cluster "ns" [] prom_rule_derived_config_map_label x
        ⊎ IsDerived operator setup faithful_cluster "ns" [] user_config_map_source_label x)
      true
      (prune_orphaned_derived_config_maps operator setup "ns" [] true)
    × ((rules : RuleConfigMaps) (k : KeySelector) (x : Object)
        → Memᴰ k rules.rule_key_selectors
        → ((name : String) → Memᴰ name (get_names rules) → Memᴰ name [])
        → x.name ≡ k.0
        → Memᴰ x (objects true)
        → Memᴰ x (objects (prune_orphaned_derived_config_maps operator setup "ns" [] true).state))
prune_orphaned_derived_config_maps-Deletes_example =
    prune_orphaned_derived_config_maps-Deletes operator setup faithful_cluster admits-labelled "ns"
      [] true ns_given
