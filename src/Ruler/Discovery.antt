-- ===== src/Ruler/Discovery.antt =====
-- The ruler's resource, and the Services that it is given: `getQueryAPIServiceEndpoints` and
-- `getReceiveServiceEndpoints`.
use thanos_operator.Common.{
  ℕ, Bool, String, List, [], ◌∷◌, Option, none, some, Labels, map, collect,
}
use thanos_operator.Controllers.Query.{
  Service, candidate, Found, endpoints, not_found, find_panics, Discovery,
}
use thanos_operator.Controllers.Reconciling.{Resource}
use thanos_operator.Controllers.Selectors.{default_query_api_label}
use thanos_operator.Manifests.Labels.{
  LabelSelector, Built, selector, panic, build_label_selector_from,
}
use thanos_operator.Manifests.Labels
use thanos_operator.Manifests.Services.{
  is_grpc_service_with_labels, is_remote_write_service_with_labels,
}
use thanos_operator.VolumeResize.{part_of_label, default_part_of_label}

-- `manifestruler.Endpoint`
pub record Endpoint : Type 0 where
  pub service_name : String
  pub port : ℕ
  pub namespace : String

pub record RuleTenancyConfig : Type 0 where
  pub tenant_specifier_label : Option String
  pub enforced_tenant_identifier : Option String

-- Either mode is a pointer; the selector of the stateless one may be `nil`.
pub record RulerSpec (Expression : Type 0) : Type 0 where
  pub replicas : ℕ
  pub query_label_selector : Option (LabelSelector Expression)
  pub rule_config_selector : LabelSelector Expression
  pub rule_tenancy_config : Option RuleTenancyConfig
  pub is_stateful : Bool
  pub stateless : Option (Option (LabelSelector Expression))

abbrev pub required_query_service_labels : Labels
required_query_service_labels =
    (default_query_api_label, "true") ∷ (part_of_label, default_part_of_label) ∷ []

abbrev pub default_remote_write_labels : Labels
default_remote_write_labels =
    ("operator.thanos.io/remote-write-api", "true") ∷ (part_of_label, default_part_of_label) ∷ []

abbrev pub default_rule_labels : Labels
default_rule_labels = ("operator.thanos.io/prometheus-rule", "true") ∷ []

abbrev pub endpoint_of : Service → ℕ → Endpoint
endpoint_of svc port = record { service_name = svc.name; port = port; namespace = svc.namespace }

-- What is not a gRPC service leaves the zero value at its index.
unfoldable pub query_endpoint_at : Service → Option ℕ → Endpoint
query_endpoint_at svc none = record { service_name = ""; port = 0; namespace = "" }
query_endpoint_at svc (some port) = endpoint_of svc port

unfoldable pub query_endpoint : Service → Endpoint
unfolding query_endpoint_at
query_endpoint svc =
    query_endpoint_at svc
      (is_grpc_service_with_labels (candidate svc) required_query_service_labels)

-- What is not a remote write service is skipped.
unfoldable pub receive_endpoint : Service → List Endpoint
receive_endpoint svc =
    elim (is_remote_write_service_with_labels (candidate svc) default_remote_write_labels) [
      | none ↦ []
      | some port ↦ endpoint_of svc port ∷ []
    ]

unfoldable pub listed : (List Service → List Endpoint) → Option (List Service) → Found Endpoint
listed endpoints_of none = not_found "the services cannot be listed"
listed endpoints_of (some services) = endpoints (endpoints_of services)

module _ {S Expression : Type 0} (discovery : Discovery S Expression) where
  unfoldable pub found_with :
      (List Service → List Endpoint) → Built discovery.Selector String → String → S → Found Endpoint
  unfolding listed
  found_with endpoints_of (selector sel) namespace s =
      listed endpoints_of (discovery.list_services s sel namespace)
  found_with endpoints_of (Labels.failed e) namespace s = not_found e
  found_with endpoints_of panic namespace s = find_panics

  unfoldable pub get_query_api_service_endpoints :
      Resource (RulerSpec Expression) → S → Found Endpoint
  unfolding found_with build_label_selector_from query_endpoint
  get_query_api_service_endpoints ruler s =
      found_with (map query_endpoint)
        (build_label_selector_from discovery.as_selector ruler.spec.query_label_selector
          required_query_service_labels)
        ruler.object.namespace s

  -- A ruler that is not stateful and has no stateless mode either: a nil pointer is followed.
  unfoldable pub receive_endpoints_with :
      Option (Option (LabelSelector Expression)) → String → S → Found Endpoint
  unfolding found_with build_label_selector_from receive_endpoint
  receive_endpoints_with none namespace s = find_panics
  receive_endpoints_with (some sel) namespace s =
      found_with (collect receive_endpoint)
        (build_label_selector_from discovery.as_selector sel default_remote_write_labels) namespace
        s

  unfoldable pub get_receive_service_endpoints :
      Resource (RulerSpec Expression) → S → Found Endpoint
  unfolding receive_endpoints_with
  get_receive_service_endpoints ruler s =
      receive_endpoints_with ruler.spec.stateless ruler.object.namespace s
