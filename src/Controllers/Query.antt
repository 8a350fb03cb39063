-- ===== src/Controllers/Query.antt =====
-- internal/controller/thanosquery_controller.go.
pub mod Types
pub mod Syncing
pub mod Watching
pub mod Discovered
pub mod Cleaning
pub mod Args
pub mod Panicking
mod Tests
use thanos_operator.Common.{
  ℕ, String, List, [], ◌∷◌, ◌++◌, Option, none, some, Bool, true, false, ◌==◌, Labels, ltb,
  if◌then◌else◌, sort_by, str_lt, map,
}
use thanos_operator.Handlers.{
  Object, Run, prune, new_resource_pruner, with_service_account, with_service, with_deployment,
  with_pod_disruption_budget, with_service_monitor,
}
use thanos_operator.Handlers.Applying.{Named, Applying, create_or_update}
use thanos_operator.Manifests.Labels.{
  EndpointType, regular, strict, group, group_strict, label_of, has_key, LabelSelector, Built,
  selector, panic, build_label_selector_from,
}
use thanos_operator.Manifests.Labels
use thanos_operator.Manifests.Services.{Candidate, ServicePort, is_grpc_service_with_labels}
use thanos_operator.Controllers.{
  Operator, Buildable, Synced, synced, sync_failed, sync_panics, not_built, not_applied,
  not_cleaned, unless_errors, also, no_errors, owner_options, prune_service_monitors,
  prune_disruption_budgets,
}
use thanos_operator.Controllers.Reconciling.{Resource, Cluster, Reconciled, reconcile}
use thanos_operator.Controllers.Selectors.{
  query_selector_labels, query_frontend_selector_labels, query_resource_name,
  query_frontend_resource_name, required_store_service_label,
}

-- A Service that was listed.
pub record Service : Type 0 where
  pub name : String
  pub namespace : String
  pub labels : Labels
  pub ports : List ServicePort

abbrev pub candidate : Service → Candidate
candidate svc = record { labels = svc.labels; service = some svc.ports }

-- `manifestquery.Endpoint`; the type of an endpoint that was never set is the empty text.
pub record Endpoint : Type 0 where
  pub service_name : String
  pub port : ℕ
  pub namespace : String
  pub endpoint_type : Option EndpointType

abbrev pub zero_endpoint : Endpoint
zero_endpoint = record { service_name = ""; port = 0; namespace = ""; endpoint_type = none }

unfoldable pub get_service_type_from_label : Labels → EndpointType
unfolding has_key
get_service_type_from_label labels =
    if has_key (label_of strict) labels
    then strict
    else if has_key (label_of group_strict) labels
    then group_strict
    else if has_key (label_of group) labels
    then group
    else regular

unfoldable pub endpoint_at_port : Service → Option ℕ → Endpoint
unfolding get_service_type_from_label
endpoint_at_port svc none = zero_endpoint
endpoint_at_port svc (some port) = record {
  service_name = svc.name;
  port = port;
  namespace = svc.namespace;
  endpoint_type = some (get_service_type_from_label svc.labels);
}

-- One turn of the loop; what is not a gRPC service leaves the zero value at its index.
unfoldable pub store_endpoint : Service → Endpoint
unfolding endpoint_at_port required_store_service_label
store_endpoint svc =
    endpoint_at_port svc (is_grpc_service_with_labels (candidate svc) required_store_service_label)

unfoldable pub store_endpoints : List Service → List Endpoint
unfolding store_endpoint sort_by
store_endpoints [] = []
store_endpoints (svc ∷ svcs) =
    sort_by (λ (a b : Endpoint). str_lt a.service_name b.service_name)
      (map store_endpoint (svc ∷ svcs))

pub record QuerySpec (Expression : Type 0) : Type 0 where
  pub replicas : ℕ
  pub store_label_selector : Option (LabelSelector Expression)
  -- The replicas of the query frontend, if there is one.
  pub query_frontend : Option ℕ

-- What `getStoreAPIServiceEndpoints` returns.
pub data Found (E : Type 0) : Type 0 where
  endpoints : List E → Found E
  not_found : String → Found E
  find_panics : Found E

-- The conversion of selectors and the call that lists services are parameters.
pub record Discovery (S Expression : Type 0) : Type 1 where
  pub Selector : Type 0
  pub as_selector : LabelSelector Expression → Built Selector String
  pub list_services : S → Selector → String → Option (List Service)
  pub matches : Selector → Labels → Bool

unfoldable pub listed_endpoints : Option (List Service) → Found Endpoint
unfolding store_endpoints
listed_endpoints none = not_found "the services cannot be listed"
listed_endpoints (some services) = endpoints (store_endpoints services)

module _ {S Expression : Type 0} (discovery : Discovery S Expression) where
  unfoldable pub found_with : Built discovery.Selector String → String → S → Found Endpoint
  unfolding listed_endpoints
  found_with (selector sel) namespace s = listed_endpoints (discovery.list_services s sel namespace)
  found_with (Labels.failed e) namespace s = not_found e
  found_with panic namespace s = find_panics

  unfoldable pub get_store_api_service_endpoints :
      Resource (QuerySpec Expression) → S → Found Endpoint
  unfolding found_with build_label_selector_from required_store_service_label
  get_store_api_service_endpoints query s =
      found_with
        (build_label_selector_from discovery.as_selector query.spec.store_label_selector
          required_store_service_label)
        query.object.namespace s
