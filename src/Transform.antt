-- ===== src/Transform.antt =====
-- internal/controller/transform.go, the fields that all components share, with pdb.go and the flags of
-- options.go in internal/pkg/manifests. The parts of a resource that are copied whole are values of a
-- parameter `Value`; a quantity is the text that it is printed as.
pub mod Budget
use Prim.Native.String.{◌++◌ as ◌<>◌}
use thanos_operator.Common.{
  ℕ, String, Bool, true, false, ◌&&◌, ◌||◌, ◌==◌, List, [], ◌∷◌, ◌++◌, Option, none, some, Labels,
  ℤ, pos, negsuc, insert, if◌then◌else◌, ltb, not,
}
use thanos_operator.FeatureGate.{Config}
use thanos_operator.Manifests.Labels.{merge_maps}
use thanos_operator.Manifests.Augmenting.{
  Additional, Options, Placement, PodDisruptionBudgetOptions, PvcRetentionPolicy,
  StatefulSetOptions, or_default,
}
use mathlib.Core.Option

-- `v1alpha1.StatefulSetFields`
pub record StatefulSetFields (Value : Type 0) : Type 0 where
  pub pod_management_policy : Option String
  pub persistent_volume_claim_retention_policy : Option PvcRetentionPolicy
  pub termination_grace_period_seconds : Value
  pub min_ready_seconds : Option ℤ

-- `v1alpha1.PodDisruptionBudgetConfig`
pub record PodDisruptionBudgetConfig : Type 0 where
  pub enable : Option Bool

-- `v1alpha1.CommonFields`, without the policy and the Secrets for pulling images.
pub record CommonFields (Value : Type 0) : Type 0 where
  pub labels : Option Labels
  pub annotations : Option Labels
  pub image : Option String
  pub version : Option String
  pub resource_requirements : Option Value
  pub log_level : Option String
  pub log_format : Option String
  pub pod_disruption_budget_config : Option PodDisruptionBudgetConfig
  pub placement : Placement Value
  pub security_context : Option Value

-- The metadata of the resource.
pub record Owner : Type 0 where
  pub name : String
  pub namespace : String
  pub labels : Option Labels
  pub annotations : Option Labels

-- What `NewPodDisruptionBudget` gives the object.
pub record PodDisruptionBudget : Type 0 where
  pub name : String
  pub namespace : String
  pub labels : Option Labels
  pub annotations : Option Labels
  pub match_labels : Option Labels
  pub min_available : Option ℤ
  pub max_unavailable : Option ℤ

unfoldable pub less_than_two : ℤ → Bool
less_than_two (pos n) = ltb n 2
less_than_two (negsuc n) = true

-- `pdb.Enable != nil && !*pdb.Enable`
unfoldable pub is_disabled : PodDisruptionBudgetConfig → Bool
is_disabled pdb = elim pdb.enable [ none ↦ false | some e ↦ not e ]

unfoldable pub pod_disruption_budget_config_to_opts :
    ℤ → Option PodDisruptionBudgetConfig → Option PodDisruptionBudgetOptions
unfolding less_than_two is_disabled
pod_disruption_budget_config_to_opts replicas none = none
pod_disruption_budget_config_to_opts replicas (some pdb) =
    if less_than_two replicas
    then none
    else if is_disabled pdb
    then none
    else some record { max_unavailable = some (pos 1); min_available = none }

unfoldable pub get_min_and_max : PodDisruptionBudgetOptions → Option ℤ × Option ℤ
get_min_and_max opts = (opts.min_available, some (Option.get_or opts.max_unavailable (pos 1)))

unfoldable pub new_pod_disruption_budget :
    String
    → String
    → Option Labels
    → Option Labels
    → Option Labels
    → PodDisruptionBudgetOptions
    → PodDisruptionBudget
unfolding get_min_and_max
new_pod_disruption_budget name namespace selector_labels object_meta_labels annotations opts =
    let (min_value, max_value) = get_min_and_max opts in
    record {
      name = name;
      namespace = namespace;
      labels = object_meta_labels;
      annotations = annotations;
      match_labels = selector_labels;
      min_available = min_value;
      max_unavailable = max_value;
    }

abbrev pub storage_size_annotation : String
storage_size_annotation = "operator.thanos.io/storage-size"

-- `CacheConfig` of the resource, where a Secret is the text of its selector.
pub record ResourceCacheConfig (Value : Type 0) : Type 0 where
  pub external_cache_config : Option Value
  -- The sizes, where the in-memory cache is configured.
  pub in_memory_cache_config : Option (Option String × Option String)

pub record InMemoryCacheConfig : Type 0 where
  pub max_size : String
  pub max_item_size : String

pub record CacheConfig (Value : Type 0) : Type 0 where
  pub in_memory_cache_config : Option InMemoryCacheConfig
  pub cache_secret : Option Value

unfoldable pub to_in_memory : Option String → Option String → Option InMemoryCacheConfig
to_in_memory max_size max_item_size =
    let size = Option.get_or max_size "" in
    let item = Option.get_or max_item_size "" in
    if not (size == "") || not (item == "")
    then some record { max_size = size; max_item_size = item }
    else none

-- `InMemoryCacheConfig.String`
unfoldable pub in_memory_string : InMemoryCacheConfig → String
in_memory_string ic =
    "type: IN-MEMORY\nconfig:\n"
    <> (if ic.max_size == "" then "" else "  max_size: " <> ic.max_size <> "\n")
    <> (if ic.max_item_size == "" then "" else "  max_item_size: " <> ic.max_item_size <> "\n")

module _ {Value : Type 0} where
  -- The zero value of the record, where no fields are given, has the nil period `no_period`.
  unfoldable pub stateful_set_to_opts :
      Value → Option (StatefulSetFields Value) → StatefulSetOptions Value
  stateful_set_to_opts no_period none = record {
    pod_management_policy = "";
    pvc_retention_policy = record { on_scale = ""; on_delete = "" };
    termination_grace_period_seconds = no_period;
    min_ready_seconds = none;
  }
  stateful_set_to_opts no_period (some fields) = record {
    pod_management_policy = Option.get_or fields.pod_management_policy "";
    pvc_retention_policy =
        Option.get_or fields.persistent_volume_claim_retention_policy
          record { on_scale = ""; on_delete = "" };
    termination_grace_period_seconds = fields.termination_grace_period_seconds;
    min_ready_seconds = fields.min_ready_seconds;
  }

  -- The additional fields of a resource are copied one by one, so they are given as copied.
  unfoldable pub common_to_opts :
      Value
      → Owner
      → ℤ
      → CommonFields Value
      → Option (StatefulSetFields Value)
      → Config
      → Additional Value
      → Options Value
  unfolding stateful_set_to_opts pod_disruption_budget_config_to_opts
  common_to_opts no_period owner replicas common fields feature_gate additional = record {
    owner = owner.name;
    namespace = owner.namespace;
    replicas = replicas;
    labels = merge_maps owner.labels common.labels;
    annotations = some (merge_maps owner.annotations common.annotations);
    image = common.image;
    version = common.version;
    resource_requirements = common.resource_requirements;
    log_level = common.log_level;
    log_format = common.log_format;
    additional = additional;
    pod_disruption_config =
        pod_disruption_budget_config_to_opts replicas common.pod_disruption_budget_config;
    placement_config = some common.placement;
    stateful_set = stateful_set_to_opts no_period fields;
    security_context = common.security_context;
    config = feature_gate;
  }

  unfoldable pub add_storage_size_annotation : Options Value → String → Options Value
  add_storage_size_annotation opts storage_size = record opts {
    annotations =
        some (insert storage_size_annotation storage_size (Option.get_or opts.annotations []));
  }

  unfoldable pub to_manifest_cache_config : Option (ResourceCacheConfig Value) → CacheConfig Value
  unfolding to_in_memory
  to_manifest_cache_config none = record { in_memory_cache_config = none; cache_secret = none }
  to_manifest_cache_config (some config) = elim config.external_cache_config [
    | some secret ↦ record { in_memory_cache_config = none; cache_secret = some secret }
    | none ↦ record {
      in_memory_cache_config = elim config.in_memory_cache_config [
        | none ↦ none
        | some sizes ↦ to_in_memory sizes.0 sizes.1
      ];
      cache_secret = none;
    }
  ]

  -- `Options.ToFlags`
  unfoldable pub to_flags : Options Value → List String
  to_flags o =
      ("--log.level=" <> or_default o.log_level "info")
      ∷ ("--log.format=" <> or_default o.log_format "logfmt")
      ∷ []
