-- ===== src/Ruler/Building.antt =====
-- `buildRuler`, `syncResources`, `cleanup` and `Reconcile` of thanosruler_controller.go.
use Prim.Native.String.{◌++◌ as concat}
use thanos_operator.Common.{
  ℕ, String, Bool, true, false, List, [], ◌∷◌, ◌++◌, Option, none, some, GoMap, Labels, insert, map,
  sort_by, str_lt, ◌==◌, if◌then◌else◌,
}
use thanos_operator.FeatureGate.{prometheus_rule_enabled}
use thanos_operator.Controllers.{Operator}
use thanos_operator.Controllers.Query.{Found, endpoints, not_found, find_panics, Discovery}
use thanos_operator.Controllers.Reconciling.{Resource}
use thanos_operator.Handlers.{Object}
use thanos_operator.Handlers.Applying.{Named}
use thanos_operator.Ruler.Creating.{
  RuleSources, get_rule_config_maps, get_prometheus_rule_config_maps,
}
use thanos_operator.Ruler.Discovery.{
  Endpoint, RulerSpec, RuleTenancyConfig, get_query_api_service_endpoints,
  get_receive_service_endpoints,
}
use thanos_operator.Ruler.Gathering.{
  KeySelector, RuleConfigMaps, no_rules, Attempt, success, failure, panicking, and_attempt,
  RuleLibrary,
}
use thanos_operator.Ruler.Tenancy.{deref, default_tenant_identifier}

-- `slices.Compact` on texts.
unfoldable pub compact_after : String → List String → List String
compact_after p [] = []
compact_after p (x ∷ xs) = let rest = compact_after x xs in if p == x then rest else x ∷ rest

unfoldable pub compact : List String → List String
unfolding compact_after
compact [] = []
compact (x ∷ xs) = x ∷ compact_after x xs

unfoldable pub get_names : RuleConfigMaps → List String
unfolding compact sort_by
get_names rules = compact (sort_by str_lt (map (λ (k : KeySelector). k.0) rules.rule_key_selectors))

abbrev pub path_of : KeySelector → String
path_of (name, key) = concat name (concat "/" key)

-- The two loops that fill the map of unique files.
unfoldable pub add_files : List KeySelector → GoMap KeySelector → GoMap KeySelector
unfolding insert
add_files [] files = files
add_files (k ∷ ks) files = add_files ks (insert (path_of k) k files)

unfoldable pub rule_files : List KeySelector → List KeySelector → List KeySelector
unfolding add_files sort_by
rule_files user prom =
    sort_by (λ (a b : KeySelector). str_lt (path_of a) (path_of b))
      (map (λ (e : String × KeySelector). e.1) (add_files prom (add_files user [])))

-- `DiscoveryInfos`
pub record DiscoveryInfos : Type 0 where
  pub service_endpoints : List Endpoint
  pub tenants : List String
  pub tenant_identifier : String

abbrev pub no_infos : DiscoveryInfos
no_infos = record { service_endpoints = []; tenants = []; tenant_identifier = "" }

pub record RulerOptions (Common : Type 0) : Type 0 where
  pub common : Common
  pub owner : String
  pub endpoints : List Endpoint
  pub rule_files : List KeySelector
  pub discovery_infos : DiscoveryInfos

-- What `buildRuler` returns: options and the names of expected ConfigMaps, or nothing and no error.
pub data BuiltRuler (Common : Type 0) : Type 0 where
  options : RulerOptions Common → List String → BuiltRuler Common
  nothing_built : BuiltRuler Common

unfoldable pub infos_for : Option RuleTenancyConfig → List String → List Endpoint → DiscoveryInfos
unfolding compact sort_by
infos_for none tenants receive_endpoints = record no_infos { service_endpoints = receive_endpoints }
infos_for (some config) tenants receive_endpoints = record {
  service_endpoints = receive_endpoints;
  tenants = compact (sort_by str_lt tenants);
  tenant_identifier = deref config.enforced_tenant_identifier default_tenant_identifier;
}

-- What a ruler is built with besides the operator: the objects of its ConfigMaps and of itself, and the
-- libraries and lists that the gathering of rules uses.
pub record RulerSetup (Value S : Type 0) : Type 1 where
  pub Expression : Type 0
  pub Rest : Type 0
  pub Common : Type 0
  pub max_config_map_data_size : ℕ
  pub config_map_object : Object → String → Labels → Labels → Named Value
  pub library : RuleLibrary Rest
  pub sources : RuleSources S Rest Expression
  pub discovery : Discovery S Expression
  pub common_to_opts : Resource (RulerSpec Expression) → Common
  pub build : RulerOptions Common → List (Named Value)

module _ {Value : Type 0} (operator : Operator Value)
    (setup : RulerSetup Value operator.client.State) where
  abbrev pub State : Type 0
  State = operator.client.State

  abbrev pub Ruler : Type 0
  Ruler = Resource (RulerSpec setup.Expression)

  abbrev pub user_rules : Ruler → State → Attempt State RuleConfigMaps
  user_rules =
      get_rule_config_maps operator setup.max_config_map_data_size setup.config_map_object
        setup.library setup.sources

  -- Only if the feature is on.
  unfoldable pub prom_rules : Bool → Ruler → State → Attempt State RuleConfigMaps
  prom_rules true ruler s =
      get_prometheus_rule_config_maps operator setup.max_config_map_data_size
        setup.config_map_object setup.library setup.sources ruler s
  prom_rules false ruler s = success s no_rules

  unfoldable pub ruler_options :
      Ruler
      → List Endpoint
      → RuleConfigMaps
      → RuleConfigMaps
      → DiscoveryInfos
      → BuiltRuler setup.Common
  unfolding rule_files get_names
  ruler_options ruler query_endpoints user prom infos =
      options
        (record {
          common = setup.common_to_opts ruler;
          owner = ruler.object.name;
          endpoints = query_endpoints;
          rule_files = rule_files user.rule_key_selectors prom.rule_key_selectors;
          discovery_infos = infos;
        })
        (get_names user ++ get_names prom)

  unfoldable pub with_receivers :
      Ruler
      → List Endpoint
      → RuleConfigMaps
      → RuleConfigMaps
      → Found Endpoint
      → State
      → Attempt State (BuiltRuler setup.Common)
  unfolding ruler_options infos_for
  with_receivers ruler query_endpoints user prom (not_found e) s = failure s e
  with_receivers ruler query_endpoints user prom find_panics s = panicking s
  with_receivers ruler query_endpoints user prom (endpoints []) s = success s nothing_built
  with_receivers ruler query_endpoints user prom (endpoints (e ∷ es)) s = success s (
      ruler_options ruler query_endpoints user prom
        (infos_for ruler.spec.rule_tenancy_config (user.tenants ++ prom.tenants) (e ∷ es)))

  unfoldable pub with_rules :
      Ruler
      → List Endpoint
      → RuleConfigMaps
      → RuleConfigMaps
      → State
      → Attempt State (BuiltRuler setup.Common)
  unfolding with_receivers get_receive_service_endpoints
  with_rules ruler query_endpoints user prom s =
      let stateless =
        with_receivers ruler query_endpoints user prom
          (get_receive_service_endpoints setup.discovery ruler s) s in
      if ruler.spec.is_stateful
      then success s (ruler_options ruler query_endpoints user prom no_infos)
      else stateless

  unfoldable pub build_with :
      Ruler → Found Endpoint → State → Attempt State (BuiltRuler setup.Common)
  unfolding and_attempt prom_rules with_rules
  build_with ruler (not_found e) s = failure s e
  build_with ruler find_panics s = panicking s
  build_with ruler (endpoints []) s = failure s "no query API services found"
  build_with ruler (endpoints (e ∷ es)) s = and_attempt (user_rules ruler s) λ s' user.
      and_attempt (prom_rules (prometheus_rule_enabled operator.features) ruler s')
        λ s'' prom. with_rules ruler (e ∷ es) user prom s''

  unfoldable pub build_ruler : Ruler → State → Attempt State (BuiltRuler setup.Common)
  unfolding build_with get_query_api_service_endpoints
  build_ruler ruler s = build_with ruler (get_query_api_service_endpoints setup.discovery ruler s) s
