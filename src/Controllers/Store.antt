-- ===== src/Controllers/Store.antt =====
-- internal/controller/thanosstore_controller.go. The objects of a store are built by a parameter, from the
-- options; of the options the common part is opaque.
pub mod Sharding
pub mod Cleaning
pub mod Args
use thanos_operator.Common.{
  ℕ, zero, suc, String, List, [], ◌∷◌, Option, none, some, Bool, ◌||◌, nat_eq, if◌then◌else◌,
}
use thanos_operator.Handlers.{
  Object, Run, prune, new_resource_pruner, with_service_account, with_service, with_stateful_set,
  with_pod_disruption_budget, with_service_monitor,
}
use thanos_operator.Handlers.Applying.{Named, Applying}
use thanos_operator.Controllers.{
  Operator, Buildable, Synced, synced, not_applied, not_cleaned, unless_errors, also, names_of,
  apply_each, no_errors, owner_options, prune_service_monitors, prune_disruption_budgets,
}
use thanos_operator.Controllers.Reconciling.{Resource, Cluster, Reconciled, reconcile}
use thanos_operator.Controllers.Selectors.{store_selector_labels, store_resource_name}
use thanos_operator.Manifests.Names.{Naming}

-- `manifests.RelabelConfig`; a field that is not given is empty or 0.
pub record RelabelConfig : Type 0 where
  pub action : String
  pub source_label : String
  pub target_label : String
  pub modulus : ℕ
  pub regex : String

pub record StoreSpec : Type 0 where
  pub replicas : ℕ
  pub shards : ℕ

pub record StoreOptions (Common : Type 0) : Type 0 where
  pub common : Common
  pub owner : String
  pub relabel_configs : List RelabelConfig
  pub shard_index : Option ℕ

unfoldable pub shard_relabel_configs : Naming → ℕ → ℕ → List RelabelConfig
shard_relabel_configs naming shard_count i =
    record {
      action = "hashmod";
      source_label = "__block_id";
      target_label = "shard";
      modulus = shard_count;
      regex = "";
    }
    ∷ record {
      action = "keep";
      source_label = "shard";
      target_label = "";
      modulus = 0;
      regex = naming.decimal i;
    }
    ∷ []

module _ {Common : Type 0} (naming : Naming) (common_to_opts : Resource StoreSpec → Common) where
  -- `storeV1Alpha1ToOptions`, with the fields that the controller writes later.
  unfoldable pub store_options :
      Resource StoreSpec → List RelabelConfig → Option ℕ → StoreOptions Common
  store_options store relabel_configs shard_index = record {
    common = common_to_opts store;
    owner = store.object.name;
    relabel_configs = relabel_configs;
    shard_index = shard_index;
  }

  -- The options of `n` shards, from the index `i` on.
  unfoldable pub shards_from : Resource StoreSpec → ℕ → ℕ → List (StoreOptions Common)
  unfolding store_options shard_relabel_configs
  shards_from store i zero = []
  shards_from store i (suc n) =
      store_options store (shard_relabel_configs naming store.spec.shards i) (some i)
      ∷ shards_from store (suc i) n

  unfoldable pub spec_to_options : Resource StoreSpec → List (StoreOptions Common)
  unfolding shards_from store_options
  spec_to_options store =
      if nat_eq store.spec.shards 0 || nat_eq store.spec.shards 1
      then store_options store [] none ∷ []
      else shards_from store 0 store.spec.shards

module _ {Value Common : Type 0} (operator : Operator Value)
    (common_to_opts : Resource StoreSpec → Common)
    (build : StoreOptions Common → List (Named Value)) where
  abbrev pub buildable : StoreOptions Common → Buildable Value
  buildable opts = record {
    generated_resource_name = store_resource_name operator.naming opts.owner opts.shard_index;
    build = build opts;
  }

  abbrev pub buildables : List (StoreOptions Common) → List (Buildable Value)
  buildables [] = []
  buildables (opts ∷ more) = buildable opts ∷ buildables more

  unfoldable pub prune_orphaned_resources :
      String → String → List String → operator.client.State → Run operator.client
  unfolding store_selector_labels
  prune_orphaned_resources ns owner expect_shards s =
      prune operator.client
        (with_service_monitor (
          with_pod_disruption_budget
            (with_stateful_set (with_service (with_service_account new_resource_pruner)))))
        expect_shards (owner_options operator ns (store_selector_labels operator.naming owner none))
        s

  unfoldable pub cleanup :
      Resource StoreSpec → List String → operator.client.State → Run operator.client
  unfolding prune_orphaned_resources also prune_service_monitors prune_disruption_budgets
  cleanup store expect_shards s =
      also operator.client
        (also operator.client
          (prune_orphaned_resources store.object.namespace store.object.name expect_shards s)
          (prune_service_monitors operator store.object))
        (prune_disruption_budgets operator store.spec.replicas (
          owner_options operator store.object.namespace
            (store_selector_labels operator.naming store.object.name none)))

  abbrev pub expected : Resource StoreSpec → List String
  expected store = names_of (buildables (spec_to_options operator.naming common_to_opts store))

  unfoldable pub sync_resources :
      Resource StoreSpec → operator.client.State → Synced operator.client.State
  unfolding cleanup spec_to_options
  sync_resources store s =
      let created : Applying operator.applier =
        apply_each operator.applier store.object.namespace store.object
          (buildables (spec_to_options operator.naming common_to_opts store))
          (no_errors operator.applier s) in
      unless_errors created.err_count not_applied created.state λ s'.
        let cleaned : Run operator.client = cleanup store (expected store) s' in
        unless_errors cleaned.err_count not_cleaned cleaned.state synced

  unfoldable pub reconcile_store :
      Cluster operator.client.State StoreSpec
      → Bool
      → operator.client.State
      → Reconciled operator.client.State
  unfolding sync_resources
  reconcile_store cluster disable s = reconcile cluster disable sync_resources s
