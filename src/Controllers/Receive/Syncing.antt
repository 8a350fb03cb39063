-- ===== src/Controllers/Receive/Syncing.antt =====
-- The sync of thanosreceive_controller.go, its cleanup, and the handler of EndpointSlice events.
use Prim.Native.String.{◌++◌ as concat}
use thanos_operator.Common.{
  ℕ, ℤ, pos, negsuc, to_nat, String, List, [], ◌∷◌, Option, none, some, Bool, true, not, ◌==◌,
  if◌then◌else◌, ltb,
}
use thanos_operator.FeatureGate.{service_monitor_enabled, kube_resource_sync_enabled}
use thanos_operator.Handlers.{
  Kind, service_monitor, pod_disruption_budget, Object, Run, prune, prune_by_owner,
  delete_resources, new_resource_pruner, with_service_account, with_service, with_stateful_set,
  with_pod_disruption_budget, with_service_monitor,
}
use thanos_operator.Handlers.Applying.{Named, Applying, create_or_update}
use thanos_operator.Controllers.{
  Operator, Buildable, Synced, synced, sync_failed, sync_panics, not_built, not_applied,
  not_cleaned, unless_errors, also, names_of, apply_each, no_errors, owner_options,
  prune_disruption_budgets,
}
use thanos_operator.Controllers.Enqueue.{Enqueued, requests}
use thanos_operator.Controllers.Reconciling.{Resource, Cluster, Reconciled, reconcile_receiver}
use thanos_operator.Controllers.Selectors.{
  ingester_selector_labels, router_selector_labels, ingester_resource_name, router_resource_name,
}
use thanos_operator.Controllers.Receive.{
  HashringSpec, ReceiveSpec, Outcome, done, not_done, outcome_panics, HashringEnvironment,
  build_hashring_config,
}

pub record IngesterOptions (Common : Type 0) : Type 0 where
  pub common : Common
  pub owner : String
  pub hashring_name : String

pub record RouterOptions (Common : Type 0) : Type 0 where
  pub common : Common
  pub owner : String
  pub hashring_config : String

-- The options of the two components, and their objects.
pub record ReceiveBuilder (Value : Type 0) : Type 1 where
  pub Common : Type 0
  pub ingester_to_opts : Resource ReceiveSpec → HashringSpec → Common
  pub router_to_opts : Resource ReceiveSpec → Common
  pub build_ingester : IngesterOptions Common → List (Named Value)
  pub build_router : RouterOptions Common → List (Named Value)

module _ {Value : Type 0} (operator : Operator Value) (builder : ReceiveBuilder Value)
    (env : HashringEnvironment operator.client.State) where
  abbrev pub State : Type 0
  State = operator.client.State

  unfoldable pub ingester : Resource ReceiveSpec → HashringSpec → Buildable Value
  ingester receiver hashring = record {
    generated_resource_name =
        ingester_resource_name operator.naming receiver.object.name hashring.name;
    build = builder.build_ingester (record {
      common = builder.ingester_to_opts receiver hashring;
      owner = receiver.object.name;
      hashring_name = hashring.name;
    });
  }

  unfoldable pub spec_to_ingest_options :
      Resource ReceiveSpec → List HashringSpec → List (Buildable Value)
  unfolding ingester
  spec_to_ingest_options receiver [] = []
  spec_to_ingest_options receiver (hashring ∷ hashrings) =
      ingester receiver hashring ∷ spec_to_ingest_options receiver hashrings

  unfoldable pub spec_to_router_options : Resource ReceiveSpec → String → Buildable Value
  spec_to_router_options receiver hashring_config = record {
    generated_resource_name = router_resource_name operator.naming receiver.object.name;
    build = builder.build_router (record {
      common = builder.router_to_opts receiver;
      owner = receiver.object.name;
      hashring_config = hashring_config;
    });
  }

  unfoldable pub prune_orphaned_resources :
      String → String → List String → State → Run operator.client
  unfolding ingester_selector_labels
  prune_orphaned_resources ns owner expect_shards s =
      prune operator.client
        (with_service_monitor (
          with_pod_disruption_budget
            (with_stateful_set (with_service (with_service_account new_resource_pruner)))))
        expect_shards
        (owner_options operator ns (ingester_selector_labels operator.naming owner "")) s

  abbrev pub nothing : State → Run operator.client
  nothing s = record { state = s; err_count = 0 }

  abbrev pub plain_object : Kind → String → String → Object
  plain_object kind name namespace = record {
    kind = kind;
    namespace = namespace;
    name = name;
    uid = "";
    labels = [];
  }

  -- The service monitors of a receiver, or that of the sidecar of its router.
  unfoldable pub prune_gated : Resource ReceiveSpec → String → State → Run operator.client
  prune_gated receiver router_name s =
      let owned =
        prune_by_owner operator.client (with_service_monitor new_resource_pruner) receiver.object
          s in
      let sidecar =
        delete_resources operator.client
          (plain_object service_monitor (concat router_name "-kube-resource-sync")
              receiver.object.namespace
            ∷ [])
          (nothing s) in
      if not (service_monitor_enabled operator.features)
      then owned
      else if not (kube_resource_sync_enabled operator.features)
      then sidecar
      else nothing s

  -- `replicas < 2`, for an int32.
  abbrev pub is_single : ℤ → Bool
  is_single (pos n) = ltb n 2
  is_single (negsuc n) = true

  unfoldable pub delete_ingester_budgets :
      Resource ReceiveSpec → List HashringSpec → Run operator.client → Run operator.client
  delete_ingester_budgets receiver [] run = run
  delete_ingester_budgets receiver (hashring ∷ hashrings) run =
      delete_ingester_budgets receiver hashrings (
        also operator.client run λ s.
          delete_resources operator.client
            (if is_single hashring.replicas
              then plain_object pod_disruption_budget
                  (ingester_resource_name operator.naming receiver.object.name hashring.name)
                  receiver.object.namespace
                ∷ []
              else [])
            (nothing s))

  unfoldable pub cleanup : Resource ReceiveSpec → List String → String → State → Run operator.client
  unfolding prune_orphaned_resources also prune_gated prune_disruption_budgets
      delete_ingester_budgets
  cleanup receiver expected_ingesters router_name s =
      delete_ingester_budgets receiver receiver.spec.hashrings (
        also operator.client
          (also operator.client
            (prune_orphaned_resources receiver.object.namespace receiver.object.name
              expected_ingesters s)
            (prune_gated receiver router_name))
          (prune_disruption_budgets operator (to_nat receiver.spec.router_replicas) (
            owner_options operator receiver.object.namespace
              (router_selector_labels operator.naming receiver.object.name))))

  -- After the router is applied, the errors of the ingesters end the sync.
  unfoldable pub after_router :
      Resource ReceiveSpec → List (Buildable Value) → Buildable Value → ℕ → State → Synced State
  unfolding cleanup
  after_router receiver ingesters router errors s = unless_errors errors not_applied s λ s'.
      let cleaned : Run operator.client =
        cleanup receiver (names_of ingesters) router.generated_resource_name s' in
      unless_errors cleaned.err_count not_cleaned cleaned.state synced

  unfoldable pub apply_router :
      Resource ReceiveSpec → List (Buildable Value) → ℕ → Outcome String → State → Synced State
  unfolding after_router spec_to_router_options
  apply_router receiver ingesters errors (not_done e) s = sync_failed s (not_built e)
  apply_router receiver ingesters errors outcome_panics s = sync_panics s
  apply_router receiver ingesters errors (done hashring_config) s =
      let router : Buildable Value = spec_to_router_options receiver hashring_config in
      let created : Applying operator.applier =
        create_or_update operator.applier receiver.object.namespace receiver.object router.build
          (no_errors operator.applier s) in
      unless_errors created.err_count not_applied created.state
        (after_router receiver ingesters router errors)

  unfoldable pub sync_resources : Resource ReceiveSpec → State → Synced State
  unfolding apply_router spec_to_ingest_options build_hashring_config
  sync_resources receiver s =
      let ingesters : List (Buildable Value) =
        spec_to_ingest_options receiver receiver.spec.hashrings in
      let created : Applying operator.applier =
        apply_each operator.applier receiver.object.namespace receiver.object ingesters
          (no_errors operator.applier s) in
      apply_router receiver ingesters created.err_count
        (build_hashring_config env operator.naming receiver created.state) created.state

  unfoldable pub reconcile_receive : Cluster State ReceiveSpec → Bool → State → Reconciled State
  unfolding sync_resources
  reconcile_receive cluster disable s = reconcile_receiver cluster disable sync_resources s

-- The kinds and names of the owners of an object.
abbrev pub Owners : Type 0
Owners = List (String × String)

-- The only owner, if it has the kind.
unfoldable pub only_owner : String → Owners → Option String
only_owner kind ((k, name) ∷ []) = if k == kind then some name else none
only_owner kind owners = none

unfoldable pub receiver_of : String → Option Owners → Enqueued
unfolding only_owner
receiver_of namespace none = requests []
receiver_of namespace (some owners) = elim (only_owner "ThanosReceive" owners) [
  | none ↦ requests []
  | some name ↦ requests ((namespace, name) ∷ [])
]

-- `enqueueForEndpointSlice`, over the call that gets a Service, as its owners.
unfoldable pub enqueue_for_endpoint_slice :
    (String → String → Option Owners) → String → Owners → Enqueued
unfolding only_owner receiver_of
enqueue_for_endpoint_slice get_service namespace owners = elim (only_owner "Service" owners) [
  | none ↦ requests []
  | some service ↦ receiver_of namespace (get_service namespace service)
]
