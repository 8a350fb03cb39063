-- ===== src/Controllers/Compact.antt =====
-- internal/controller/thanoscompact_controller.go.
pub mod First
pub mod Args
use thanos_operator.Common.{
  ℕ, zero, suc, String, List, [], ◌∷◌, ◌++◌, map, Option, none, some, Bool, if◌then◌else◌, length,
}
use thanos_operator.FeatureGate.{service_monitor_enabled}
use thanos_operator.Handlers.{
  Object, Run, prune, prune_by_owner, new_resource_pruner, with_service_account, with_service,
  with_stateful_set, with_service_monitor,
}
use thanos_operator.Handlers.Applying.{Named, Applying}
use thanos_operator.Controllers.{
  Operator, Buildable, Synced, synced, not_applied, not_cleaned, unless_errors, names_of,
  apply_each, no_errors, owner_options, prune_service_monitors,
}
use thanos_operator.Controllers.Reconciling.{Resource, Cluster, Reconciled, reconcile}
use thanos_operator.Controllers.Selectors.{compact_selector_labels, compact_resource_name}
use thanos_operator.Controllers.Store.{RelabelConfig}

-- One shard: its name, and the labels and values by which its blocks are chosen.
pub record ShardingConfig : Type 0 where
  pub shard_name : String
  pub external_label_sharding : List (String × String)

pub record CompactSpec : Type 0 where
  pub sharding_config : List ShardingConfig

pub record CompactOptions (Common : Type 0) : Type 0 where
  pub common : Common
  pub owner : String
  pub relabel_configs : List RelabelConfig
  pub shard_name : Option String

unfoldable pub shard_relabel_config : String × String → RelabelConfig
shard_relabel_config (label, value) = record {
  action = "keep";
  source_label = label;
  target_label = "";
  modulus = 0;
  regex = value;
}

module _ {Common : Type 0} (common_to_opts : Resource CompactSpec → Common) where
  -- `compactV1Alpha1ToOptions`, with the fields that the controller writes later.
  unfoldable pub compact_options :
      Resource CompactSpec → List RelabelConfig → Option String → CompactOptions Common
  compact_options compact relabel_configs shard_name = record {
    common = common_to_opts compact;
    owner = compact.object.name;
    relabel_configs = relabel_configs;
    shard_name = shard_name;
  }

  unfoldable pub shard_options : Resource CompactSpec → ShardingConfig → CompactOptions Common
  unfolding compact_options shard_relabel_config
  shard_options compact shard =
      compact_options compact (map shard_relabel_config shard.external_label_sharding)
        (some shard.shard_name)

  unfoldable pub options_of :
      Resource CompactSpec → List ShardingConfig → List (CompactOptions Common)
  unfolding shard_options
  options_of compact [] = compact_options compact [] none ∷ []
  options_of compact (shard ∷ shards) = map (shard_options compact) (shard ∷ shards)

  unfoldable pub spec_to_options : Resource CompactSpec → List (CompactOptions Common)
  unfolding options_of
  spec_to_options compact = options_of compact compact.spec.sharding_config

-- `make([]string, n)`: n empty texts.
unfoldable pub blanks : ℕ → List String
blanks zero = []
blanks (suc n) = "" ∷ blanks n

module _ {Value Common : Type 0} (operator : Operator Value)
    (common_to_opts : Resource CompactSpec → Common)
    (build : CompactOptions Common → List (Named Value)) where
  abbrev pub buildable : CompactOptions Common → Buildable Value
  buildable opts = record {
    generated_resource_name = compact_resource_name operator.naming opts.owner opts.shard_name;
    build = build opts;
  }

  abbrev pub buildables : Resource CompactSpec → List (Buildable Value)
  buildables compact = map buildable (spec_to_options common_to_opts compact)

  unfoldable pub prune_orphaned_resources :
      String → String → List String → operator.client.State → Run operator.client
  unfolding compact_selector_labels
  prune_orphaned_resources ns owner expect_shards s =
      prune operator.client
        (with_service_monitor
          (with_stateful_set (with_service (with_service_account new_resource_pruner))))
        expect_shards
        (owner_options operator ns (compact_selector_labels operator.naming owner none)) s

  -- The names are appended to a list that has as many blanks already.
  abbrev pub expected : Resource CompactSpec → List String
  expected compact = blanks (length (buildables compact)) ++ names_of (buildables compact)

  unfoldable pub gated : Resource CompactSpec → operator.client.State → Synced operator.client.State
  unfolding prune_service_monitors
  gated compact s =
      let pruned : Run operator.client = prune_service_monitors operator compact.object s in
      unless_errors pruned.err_count not_cleaned pruned.state synced

  unfoldable pub create : Resource CompactSpec → operator.client.State → Applying operator.applier
  create compact s =
      apply_each operator.applier compact.object.namespace compact.object (buildables compact)
        (no_errors operator.applier s)

  unfoldable pub after_pruning :
      Resource CompactSpec → operator.client.State → Synced operator.client.State
  unfolding create gated
  after_pruning compact s =
      let created : Applying operator.applier = create compact s in
      unless_errors created.err_count not_applied created.state (gated compact)

  unfoldable pub sync_resources :
      Resource CompactSpec → operator.client.State → Synced operator.client.State
  unfolding prune_orphaned_resources blanks after_pruning
  sync_resources compact s =
      let pruned : Run operator.client =
        prune_orphaned_resources compact.object.namespace compact.object.name (expected compact)
          s in
      unless_errors pruned.err_count not_cleaned pruned.state (after_pruning compact)

  unfoldable pub reconcile_compact :
      Cluster operator.client.State CompactSpec
      → Bool
      → operator.client.State
      → Reconciled operator.client.State
  unfolding sync_resources
  reconcile_compact cluster disable s = reconcile cluster disable sync_resources s
