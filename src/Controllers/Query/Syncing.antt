-- ===== src/Controllers/Query/Syncing.antt =====
-- The sync of thanosquery_controller.go: `buildQuery`, `buildQueryFrontend`, `syncResources` and `cleanup`.
use thanos_operator.Common.{ℕ, String, List, [], ◌∷◌, ◌++◌, Option, none, some, Bool}
use thanos_operator.Handlers.{
  Run, prune, new_resource_pruner, with_service_account, with_service, with_deployment,
  with_pod_disruption_budget, with_service_monitor,
}
use thanos_operator.Handlers.Applying.{Named, Applying, create_or_update}
use thanos_operator.Controllers.{
  Operator, Buildable, Synced, synced, sync_failed, sync_panics, not_built, not_applied,
  not_cleaned, unless_errors, also, no_errors, owner_options, prune_service_monitors,
  prune_disruption_budgets,
}
use thanos_operator.Controllers.Reconciling.{Resource, Cluster, Reconciled, reconcile}
use thanos_operator.Controllers.Selectors.{
  query_selector_labels, query_frontend_selector_labels, query_resource_name,
  query_frontend_resource_name,
}
use thanos_operator.Controllers.Query.{
  Endpoint, QuerySpec, Found, endpoints, not_found, find_panics, Discovery,
  get_store_api_service_endpoints,
}

pub record QueryOptions (Common : Type 0) : Type 0 where
  pub common : Common
  pub owner : String
  pub endpoints : List Endpoint

-- The options of the two components, and their objects.
pub record QueryBuilder (Value Expression : Type 0) : Type 1 where
  pub Common : Type 0
  pub Frontend : Type 0
  pub common_to_opts : Resource (QuerySpec Expression) → Common
  pub frontend_to_opts : Resource (QuerySpec Expression) → Frontend
  pub build_query : QueryOptions Common → List (Named Value)
  pub build_frontend : Frontend → List (Named Value)

module _ {Value Expression : Type 0} (operator : Operator Value)
    (builder : QueryBuilder Value Expression)
    (discovery : Discovery operator.client.State Expression) where
  abbrev pub Query : Type 0
  Query = Resource (QuerySpec Expression)

  unfoldable pub build_query : Query → List Endpoint → Buildable Value
  build_query query found = record {
    generated_resource_name = query_resource_name operator.naming query.object.name;
    build = builder.build_query (record {
      common = builder.common_to_opts query;
      owner = query.object.name;
      endpoints = found;
    });
  }

  unfoldable pub build_query_frontend : Query → Buildable Value
  build_query_frontend query = record {
    generated_resource_name = query_frontend_resource_name operator.naming query.object.name;
    build = builder.build_frontend (builder.frontend_to_opts query);
  }

  -- The components of a query: the frontend is there only if it is configured.
  unfoldable pub components : Query → Buildable Value → Option ℕ → List (Buildable Value)
  unfolding build_query_frontend
  components query querier none = querier ∷ []
  components query querier (some replicas) = querier ∷ build_query_frontend query ∷ []

  abbrev pub expected_names : List (Buildable Value) → List String
  expected_names [] = []
  expected_names (b ∷ bs) = b.generated_resource_name ∷ expected_names bs

  abbrev pub objects_of : List (Buildable Value) → List (Named Value)
  objects_of [] = []
  objects_of (b ∷ bs) = b.build ++ objects_of bs

  abbrev pub own : String → String → List operator.client.ListOption
  own ns owner = owner_options operator ns (query_selector_labels operator.naming owner)

  unfoldable pub prune_orphaned_resources :
      String → String → List String → operator.client.State → Run operator.client
  unfolding query_selector_labels
  prune_orphaned_resources ns owner expected_resources s =
      prune operator.client
        (with_service_monitor (
          with_pod_disruption_budget
            (with_deployment (with_service (with_service_account new_resource_pruner)))))
        expected_resources (own ns owner) s

  unfoldable pub prune_frontend_budgets :
      Query → Option ℕ → operator.client.State → Run operator.client
  unfolding prune_disruption_budgets query_frontend_selector_labels
  prune_frontend_budgets query none s = record { state = s; err_count = 0 }
  prune_frontend_budgets query (some replicas) s =
      prune_disruption_budgets operator replicas
        (owner_options operator query.object.namespace
          (query_frontend_selector_labels operator.naming query.object.name))
        s

  unfoldable pub cleanup : Query → List String → operator.client.State → Run operator.client
  unfolding prune_orphaned_resources also prune_service_monitors prune_disruption_budgets
      prune_frontend_budgets
  cleanup query expected_resources s =
      also operator.client
        (also operator.client
          (also operator.client
            (prune_orphaned_resources query.object.namespace query.object.name expected_resources s)
            (prune_service_monitors operator query.object))
          (prune_disruption_budgets operator query.spec.replicas
            (own query.object.namespace query.object.name)))
        (prune_frontend_budgets query query.spec.query_frontend)

  unfoldable pub apply_components :
      Query → List (Buildable Value) → operator.client.State → Synced operator.client.State
  unfolding cleanup
  apply_components query built s =
      let created : Applying operator.applier =
        create_or_update operator.applier query.object.namespace query.object (objects_of built)
          (no_errors operator.applier s) in
      unless_errors created.err_count not_applied created.state λ s'.
        let cleaned : Run operator.client = cleanup query (expected_names built) s' in
        unless_errors cleaned.err_count not_cleaned cleaned.state synced

  unfoldable pub sync_found :
      Query → Found Endpoint → operator.client.State → Synced operator.client.State
  unfolding apply_components components build_query
  sync_found query (endpoints found) s =
      apply_components query (components query (build_query query found) query.spec.query_frontend)
        s
  sync_found query (not_found e) s = sync_failed s (not_built e)
  sync_found query find_panics s = sync_panics s

  unfoldable pub sync_resources : Query → operator.client.State → Synced operator.client.State
  unfolding sync_found get_store_api_service_endpoints
  sync_resources query s = sync_found query (get_store_api_service_endpoints discovery query s) s

  unfoldable pub reconcile_query :
      Cluster operator.client.State (QuerySpec Expression)
      → Bool
      → operator.client.State
      → Reconciled operator.client.State
  unfolding sync_resources
  reconcile_query cluster disable s = reconcile cluster disable sync_resources s
