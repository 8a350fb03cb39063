-- ===== src/Controllers/Query/Tests.antt =====
-- The theorems on the query controller at small inputs.
use mathlib.Core.List.{Memᴰ, Permᴰ}
use mathlib.Core.List.Memᴰ
use thanos_operator.Common.{
  Option, Bool-cases, if◌then◌else◌, ==-eq, eq_refl, ◌==◌, inr, ◌∙◌, sym, ap, ◌<◌, none, some,
  String, Bool, true, false, List, [], ◌∷◌, Labels, lookup, map, ◌≡◌, ◌≢◌, ◌↔◌, refl, sym, ap, ◌∙◌,
  inl, inr, IsSorted, key_lt, arith,
}
use thanos_operator.Handlers.{service_monitor}
use thanos_operator.Controllers.Enqueue.{
  Request, requests, enqueue, enqueue_each, and_then, select_request,
}
use thanos_operator.Controllers.Query.{
  Service, Endpoint, QuerySpec, Discovery, zero_endpoint, candidate, store_endpoint,
  store_endpoints, get_service_type_from_label,
}
use thanos_operator.Controllers.Query.Cleaning.{cleanup-keeps_frontend}
use thanos_operator.Controllers.Query.Discovered.{port_of, store_endpoints-zero}
use thanos_operator.Controllers.Query.Args.{QueryOptions, query_args}
use thanos_operator.Controllers.Query.Panicking.{query_args-panics}
use thanos_operator.Controllers.Query.Syncing.{QueryBuilder, cleanup}
use thanos_operator.Controllers.Query.Types.{get_service_type_from_label-sanitize}
use thanos_operator.Controllers.Query.Watching.{
  is_queueable_store_service, query_turn, enqueue_for_service, enqueue_for_service-AsksFor,
  Concerns, ListsTheNamespace,
}
use thanos_operator.Controllers.Reconciling.{Resource}
use thanos_operator.Common.{pos}
use thanos_operator.Controllers.Sample.{
  no_features, held, objects, faithful_cluster, admits-honours, operator, resource, u0_given,
}
use thanos_operator.Controllers.Selectors.{component_label, required_store_service_label}
use thanos_operator.Manifests.Labels.{
  EndpointType, group, group_strict, label_of, LabelSelector, selector,
  sanitize_store_api_endpoint_labels, build_label_selector_from, has_required_labels,
}
use thanos_operator.Manifests.Services.{
  is_grpc_service_with_labels, check_service_port, service_port, port_named,
}
use thanos_operator.Manifests.StoreApi.{rank}

abbrev endpoint_labels : Labels
endpoint_labels =
    ("operator.thanos.io/endpoint", "true") ∷ ("operator.thanos.io/endpoint-group", "true") ∷ []

group_set : lookup (label_of group) endpoint_labels ≡ some "true"
unfolding lookup
group_set = refl

nothing_above :
    (t : EndpointType) → rank group < rank t → lookup (label_of t) endpoint_labels ≡ none
unfolding lookup
nothing_above group_strict h = refl
nothing_above t h = absurd (omega arith)

get_service_type_from_label-sanitize_example :
    get_service_type_from_label (sanitize_store_api_endpoint_labels endpoint_labels) ≡ group
get_service_type_from_label-sanitize_example =
    get_service_type_from_label-sanitize endpoint_labels group "true" group_set nothing_above

-- A store with a gRPC port, and a Service without ports.
abbrev services : List Service
services =
    record {
      name = "store";
      namespace = "ns";
      labels =
          ("app.kubernetes.io/part-of", "thanos") ∷ ("operator.thanos.io/store-api", "true") ∷ [];
      ports = record { name = "grpc"; port = 10901 } ∷ [];
    }
    ∷ record { name = "other"; namespace = "ns"; labels = []; ports = [] }
    ∷ []

have_names : (svc : Service) → Memᴰ svc services → svc.name ≢ ""
have_names svc m h = elim (Memᴰ.cases_cons m) [
  | inl e ↦ let name : svc.name ≡ "store" = ap (λ (x : Service). x.name) e in cc (sym name ∙ h)
  | inr l ↦
      let name : svc.name ≡ "other" = ap (λ (x : Service). x.name) (Memᴰ.eq_of_singleton l) in
      cc (sym name ∙ h)
]

store_endpoints-zero_example :
    Permᴰ (store_endpoints services) (map store_endpoint services)
    × IsSorted (key_lt (λ (e : Endpoint). e.service_name)) (store_endpoints services)
    × (Memᴰ zero_endpoint (store_endpoints services)
        ↔ (svc : Service) × Memᴰ svc services × (port_of svc ≡ none))
store_endpoints-zero_example = store_endpoints-zero services have_names

abbrev querier : QueryOptions String
querier = record {
  common = record {
    owner = "example";
    namespace = "ns";
    replicas = pos 2;
    labels = [];
    annotations = none;
    log_level = none;
    log_format = some "json";
    pod_disruption_config = none;
    additional = record {
      args = none;
      containers = [];
      volumes = [];
      volume_mounts = [];
      ports = [];
      env = [];
      config_maps = [];
      secrets = [];
      service_ports = [];
    };
    stateful_set = record {
      pod_management_policy = "";
      pvc_retention_policy = record { on_scale = ""; on_delete = "" };
      termination_grace_period_seconds = "";
      min_ready_seconds = none;
    };
    image = none;
    version = none;
    resource_requirements = none;
    placement_config = none;
    security_context = none;
    config = no_features;
  };
  replica_labels = "replica" ∷ [];
  timeout = "15m";
  lookback_delta = "5m";
  max_concurrent = 20;
  web_options = record {
    route_prefix = "";
    external_prefix = "";
    prefix_header = "";
    disable_cors = true;
  };
  telemetry_quantiles = record { duration = []; samples = []; series = [] };
  grpc_proxy_strategy = "eager";
  endpoints = store_endpoints services;
}

query_args-panics_example :
    (query_args (λ n. "10901") querier ≡ none)
    ↔ (svc : Service) × Memᴰ svc services × (port_of svc ≡ none)
query_args-panics_example = query_args-panics (λ n. "10901") querier services refl

-- Selectors are labels, which must be carried.
abbrev discovery : Discovery Bool (Unit {0})
discovery = record {
  Selector = Labels;
  as_selector = λ (ls : LabelSelector (Unit {0})). elim ls.match_labels [
    | none ↦ selector []
    | some m ↦ selector m
  ];
  list_services = λ s sel namespace. some services;
  matches = λ sel labels. has_required_labels labels sel;
}

abbrev query : Resource (QuerySpec (Unit {0}))
query = resource (record { replicas = 1; store_label_selector = none; query_frontend = none })

abbrev store_service : Service
store_service = record {
  name = "store";
  namespace = "ns";
  labels = ("app.kubernetes.io/part-of", "thanos") ∷ ("operator.thanos.io/store-api", "true") ∷ [];
  ports = record { name = "grpc"; port = 10901 } ∷ [];
}

abbrev asked : List Request
asked = ("ns", "q") ∷ []

-- The namespace "ns" has the query, the others none.
abbrev list_queries : String → Option (List (Resource (QuerySpec (Unit {0}))))
list_queries namespace = some (if namespace == "ns" then query ∷ [] else [])

lists_lem : ListsTheNamespace discovery (query ∷ []) list_queries
lists_lem namespace = elim (Bool-cases (namespace == "ns")) [
  | inl e ↦ (
    query ∷ [],
    rw e refl,
    λ q. (
      (λ m. (
        m,
        ap (λ (x : Resource (QuerySpec (Unit {0}))). x.object.namespace) (Memᴰ.eq_of_singleton m)
            ∙ sym (==-eq namespace "ns" e),
      )),
      (λ p. p.0),
    ),
  )
  | inr e ↦ (
    [],
    rw e refl,
    λ q. (
      (λ m. absurd (Memᴰ.not-nil m)),
      (λ (m, placed).
          let here : q.object.namespace ≡ "ns" =
            ap (λ (x : Resource (QuerySpec (Unit {0}))). x.object.namespace)
              (Memᴰ.eq_of_singleton m) in
          let same : namespace ≡ "ns" = sym placed ∙ here in
          let passes : (namespace == "ns") ≡ true = rw same (eq_refl "ns") in
          let impossible : true ≡ false = sym passes ∙ e in absurd (cc impossible)),
    ),
  )
]

enqueued :
    enqueue_for_service discovery list_queries "ns" (candidate store_service) ≡ requests asked
unfolding enqueue_for_service enqueue enqueue_each and_then select_request query_turn
    is_queueable_store_service is_grpc_service_with_labels check_service_port service_port
    port_named has_required_labels required_store_service_label build_label_selector_from lookup
enqueued = refl

enqueue_for_service-AsksFor_example :
    ((is_queueable_store_service (candidate store_service) ≡ true)
      → (q : Request)
      → Memᴰ q asked
        ↔ (asker : Resource (QuerySpec (Unit {0}))) × Memᴰ asker (query ∷ [])
          × Concerns discovery "ns" (candidate store_service) asker
          × (q ≡ (asker.object.namespace, asker.object.name)))
    × ((is_queueable_store_service (candidate store_service) ≡ false) → asked ≡ [])
enqueue_for_service-AsksFor_example =
    enqueue_for_service-AsksFor discovery (query ∷ []) list_queries "ns" (candidate store_service)
      asked lists_lem enqueued

abbrev builder : QueryBuilder String (Unit {0})
builder = record {
  Common = Unit;
  Frontend = Unit;
  common_to_opts = λ q. tt;
  frontend_to_opts = λ q. tt;
  build_query = λ opts. [];
  build_frontend = λ opts. [];
}

held_frontend : lookup component_label held.labels ≡ some "query-frontend"
unfolding lookup
held_frontend = refl

not_a_monitor : held.kind ≢ service_monitor
not_a_monitor h = cc

cleanup-keeps_frontend_example :
    Memᴰ held
      (objects (cleanup operator builder discovery query ("thanos-query-q" ∷ []) true).state)
cleanup-keeps_frontend_example =
    cleanup-keeps_frontend operator faithful_cluster builder discovery admits-honours query
      ("thanos-query-q" ∷ []) true held u0_given refl (Memᴰ.head refl) held_frontend not_a_monitor
