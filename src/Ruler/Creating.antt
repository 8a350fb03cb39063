-- ===== src/Ruler/Creating.antt =====
-- The ConfigMaps of rules: `createBucketedRuleConfigMaps`, `getRuleConfigMaps`, `getPrometheusRuleConfigMaps`.
use Prim.Native.String.{◌++◌ as concat}
use thanos_operator.Common.{
  ℕ, suc, String, List, [], ◌∷◌, ◌++◌, Option, none, some, Labels, keys, map, zero,
}
use thanos_operator.Controllers.{Operator, no_errors}
use thanos_operator.Controllers.Reconciling.{Resource}
use thanos_operator.Handlers.{Object}
use thanos_operator.Handlers.Applying.{Named, Applying, create_or_update}
use thanos_operator.Manifests.Labels.{
  LabelSelector, Built, selector, panic, build_label_selector_from, merge_maps, or_empty,
}
use thanos_operator.Manifests.Labels
use thanos_operator.Manifests.Names.{sanitize_name}
use thanos_operator.Ruler.Discovery.{RulerSpec, default_rule_labels}
use thanos_operator.Ruler.Packing.{Made, config_maps, file_too_large, make_rules_config_maps}
use thanos_operator.Ruler.Gathering.{
  RuleConfigMap, PrometheusRule, KeySelector, RuleConfigMaps, Gathered, Attempt, success, failure,
  panicking, RuleLibrary, gather_user, gather_rules,
}

abbrev pub prom_rule_derived_config_map_label : String
prom_rule_derived_config_map_label = "operator.thanos.io/prometheus-rule-derived-configmap"

abbrev pub user_config_map_source_label : String
user_config_map_source_label = "operator.thanos.io/user-configmap-source"

-- The object of a ConfigMap, owned by the ruler, from its name, its labels and its data.
module _ {Value : Type 0} (Expression : Type 0) (operator : Operator Value)
    (max_config_map_data_size : ℕ)
    (config_map_object : Object → String → Labels → Labels → Named Value) where
  abbrev pub Ruler : Type 0
  Ruler = Resource (RulerSpec Expression)

  unfoldable pub bucket_name : Ruler → String → ℕ → String
  unfolding sanitize_name
  bucket_name ruler name_prefix i = sanitize_name operator.naming (
      concat ruler.object.name
        (concat "-" (concat name_prefix (concat "-" (operator.naming.decimal i)))))

  unfoldable pub bucket_labels : Ruler → Labels → Labels
  bucket_labels ruler additional_labels =
      merge_maps
        (some (merge_maps ruler.spec.rule_config_selector.match_labels (some default_rule_labels)))
        (some additional_labels)

  unfoldable pub bucket_objects : Ruler → String → Labels → ℕ → List Labels → List (Named Value)
  unfolding bucket_name bucket_labels
  bucket_objects ruler name_prefix additional_labels i [] = []
  bucket_objects ruler name_prefix additional_labels i (data_ ∷ buckets) =
      config_map_object ruler.object (bucket_name ruler name_prefix i)
        (bucket_labels ruler additional_labels) data_
      ∷ bucket_objects ruler name_prefix additional_labels (suc i) buckets

  unfoldable pub bucket_selectors : Ruler → String → ℕ → List Labels → List KeySelector
  unfolding bucket_name
  bucket_selectors ruler name_prefix i [] = []
  bucket_selectors ruler name_prefix i (data_ ∷ buckets) =
      map (λ key. (bucket_name ruler name_prefix i, key)) (keys data_)
      ++ bucket_selectors ruler name_prefix (suc i) buckets

  -- The end of the function: the errors of the call, and the state it left.
  unfoldable pub bucketed :
      ℕ
      → operator.client.State
      → List KeySelector
      → List String
      → Attempt operator.client.State RuleConfigMaps
  bucketed zero s selectors tenants =
      success s (record { rule_key_selectors = selectors; tenants = tenants })
  bucketed (suc errors) s selectors tenants = failure s "failed to create or update ConfigMaps"

  unfoldable pub create_made :
      Ruler
      → String
      → Labels
      → List String
      → Made
      → operator.client.State
      → Attempt operator.client.State RuleConfigMaps
  unfolding bucket_objects bucket_selectors bucketed
  create_made ruler name_prefix additional_labels tenants (file_too_large name) s =
      failure s "failed to create config maps for rules"
  create_made ruler name_prefix additional_labels tenants (config_maps buckets) s =
      let created : Applying operator.applier =
        create_or_update operator.applier ruler.object.namespace ruler.object
          (bucket_objects ruler name_prefix additional_labels 0 buckets)
          (no_errors operator.applier s) in
      bucketed created.err_count created.state (bucket_selectors ruler name_prefix 0 buckets)
        tenants

  unfoldable pub create_bucketed_rule_config_maps :
      Ruler
      → Labels
      → String
      → Labels
      → List String
      → operator.client.State
      → Attempt operator.client.State RuleConfigMaps
  unfolding create_made make_rules_config_maps
  create_bucketed_rule_config_maps ruler all_rule_files name_prefix additional_labels tenants s =
      create_made ruler name_prefix additional_labels tenants
        (make_rules_config_maps max_config_map_data_size all_rule_files) s

  -- After the loop: an empty tenant is an error, and no file is no ConfigMap.
  unfoldable pub create_gathered :
      Ruler
      → String
      → Labels
      → Option Gathered
      → operator.client.State
      → Attempt operator.client.State RuleConfigMaps
  unfolding create_bucketed_rule_config_maps
  create_gathered ruler name_prefix additional_labels none s = failure s "tenant in labels is empty"
  create_gathered ruler name_prefix additional_labels (some g) s = create_files g.files
    where
      create_files : Labels → Attempt operator.client.State RuleConfigMaps
      create_files [] = success s (record { rule_key_selectors = []; tenants = g.tenants })
      create_files (f ∷ files) =
          create_bucketed_rule_config_maps ruler (f ∷ files) name_prefix additional_labels g.tenants
            s

abbrev pub nothing_gathered : Gathered
nothing_gathered = record { tenants = []; files = [] }

-- The calls that list the sources of rules, by a selector and a namespace; the selector of the ConfigMaps
-- excludes those that the operator made.
pub record RuleSources (S Rest Expression : Type 0) : Type 1 where
  pub Selector : Type 0
  pub as_selector : LabelSelector Expression → Built Selector String
  pub without_derived : Selector → Option Selector
  pub list_config_maps : S → Selector → String → Option (List RuleConfigMap)
  pub list_rules : S → Selector → String → Option (List (PrometheusRule Rest))

module _ {Value Rest Expression : Type 0} (operator : Operator Value) (max_config_map_data_size : ℕ)
    (config_map_object : Object → String → Labels → Labels → Named Value)
    (library : RuleLibrary Rest) (sources : RuleSources operator.client.State Rest Expression) where
  abbrev pub Result : Type 0
  Result = Attempt operator.client.State RuleConfigMaps

  -- The selector of the resource, with the label that every source of rules has; match labels are
  -- required.
  unfoldable pub rule_selector : Resource (RulerSpec Expression) → Built sources.Selector String
  unfolding build_label_selector_from
  rule_selector ruler = elim ruler.spec.rule_config_selector.match_labels [
    | none ↦ Labels.failed "no prometheus rule selector specified"
    | some labels ↦
        build_label_selector_from sources.as_selector (some ruler.spec.rule_config_selector)
          default_rule_labels
  ]

  -- An empty list ends in no rule files, as the loop over it does.
  unfoldable pub user_listed :
      Resource (RulerSpec Expression) → Option (List RuleConfigMap) → operator.client.State → Result
  unfolding create_gathered gather_user
  user_listed ruler none s = failure s "the ConfigMaps cannot be listed"
  user_listed ruler (some cms) s =
      create_gathered Expression operator max_config_map_data_size config_map_object ruler
        "usercfgmap" ((user_config_map_source_label, "true") ∷ [])
        (gather_user library ruler.spec.rule_tenancy_config cms nothing_gathered) s

  unfoldable pub user_with :
      Resource (RulerSpec Expression) → Option sources.Selector → operator.client.State → Result
  unfolding user_listed
  user_with ruler none s = failure s "the requirement is not valid"
  user_with ruler (some sel) s =
      user_listed ruler (sources.list_config_maps s sel ruler.object.namespace) s

  unfoldable pub get_rule_config_maps :
      Resource (RulerSpec Expression) → operator.client.State → Result
  unfolding rule_selector user_with
  get_rule_config_maps ruler s = elim (rule_selector ruler) [
    | selector sel ↦ user_with ruler (sources.without_derived sel) s
    | Labels.failed e ↦ failure s e
    | panic ↦ panicking s
  ]

  unfoldable pub rules_listed :
      Resource (RulerSpec Expression)
      → Option (List (PrometheusRule Rest))
      → operator.client.State
      → Result
  unfolding create_gathered gather_rules
  rules_listed ruler none s = failure s "the PrometheusRules cannot be listed"
  rules_listed ruler (some rules) s =
      create_gathered Expression operator max_config_map_data_size config_map_object ruler
        "promrule" ((prom_rule_derived_config_map_label, "true") ∷ [])
        (gather_rules library ruler.spec.rule_tenancy_config rules nothing_gathered) s

  unfoldable pub get_prometheus_rule_config_maps :
      Resource (RulerSpec Expression) → operator.client.State → Result
  unfolding rule_selector rules_listed
  get_prometheus_rule_config_maps ruler s = elim (rule_selector ruler) [
    | selector sel ↦ rules_listed ruler (sources.list_rules s sel ruler.object.namespace) s
    | Labels.failed e ↦ failure s e
    | panic ↦ panicking s
  ]
