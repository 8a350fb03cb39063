-- ===== src/Controllers/Receive/Tests.antt =====
-- The theorem on the hashring configuration at a small receiver.
use thanos_operator.Common.{
  pos, none, some, Bool, true, List, [], ◌∷◌, lookup, collect, sort_by, All, ◌≡◌, refl, insert,
}
use thanos_operator.Controllers.Reconciling.{Resource}
use thanos_operator.Controllers.Receive.{
  ReceiveSpec, HashringEnvironment, config_map, done, then_with, current_state, fetch_ready,
  policy_of, written, build_hashring_config, endpoints_of, listed_endpoints, converter_for,
  fetched_meta, algorithm_for, with_tenancy,
}
use thanos_operator.Controllers.Receive.Written.{
  StandsFor, HasReplicas, build_hashring_config-merge,
}
use thanos_operator.Controllers.Sample.{naming, resource}
use thanos_operator.Controllers.Selectors.{router_resource_name}
use thanos_operator.Handlers.{get_endpoint_slices}
use thanos_operator.Hashring.Endpoints.{
  EndpointSlice, endpoint_slice_list_to_endpoints, gather, apply_filters, convert_all,
  filter_endpoint_ready, ready_endpoints, default_endpoint_converter, service_address, compact,
  compact_after, endpoint_lt, same_endpoint,
}
use thanos_operator.Hashring.Merge.{dynamic_merge, handle_unseen_hashrings, unseen_entry}
use thanos_operator.Hashring.Runs.{merge, HasQuorum}
use thanos_operator.Hashring.Types.{HashringState, Hashrings, is_empty_hashring, meta_to_hashring}

abbrev receiver : Resource ReceiveSpec
receiver = resource (record {
  router_replicas = pos 1;
  replication_factor = pos 1;
  replication_protocol = none;
  hashring_policy = none;
  hashrings =
      record { name = "a"; replicas = pos 1; hashing_algorithm = none; tenancy_config = none } ∷ [];
})

-- One EndpointSlice with one endpoint, which is ready.
abbrev slices : List EndpointSlice
slices =
    record {
      namespace = "ns";
      labels = ("kubernetes.io/service-name", "svc") ∷ [];
      owners = [];
      endpoints = record { hostname = some "host-0"; ready = some true } ∷ [];
    }
    ∷ []

abbrev env : HashringEnvironment Bool
env = record {
  encode = λ hs. some "json";
  decode = λ text. some [];
  get_config_map = λ s namespace name. config_map none;
  list_endpoint_slices = λ s label namespace. some slices;
}

first_text : build_hashring_config env naming receiver true ≡ done "json"
unfolding build_hashring_config then_with current_state fetch_ready policy_of written endpoints_of
    listed_endpoints converter_for fetched_meta algorithm_for with_tenancy get_endpoint_slices
    endpoint_slice_list_to_endpoints gather apply_filters convert_all filter_endpoint_ready
    ready_endpoints default_endpoint_converter service_address compact compact_after endpoint_lt
    same_endpoint merge dynamic_merge handle_unseen_hashrings unseen_entry is_empty_hashring
    meta_to_hashring collect sort_by lookup insert
first_text = refl

build_hashring_config-merge_example :
    (current : Hashrings) × (fetched : HashringState) × (current_state env
        (env.get_config_map true "ns" (router_resource_name naming "q"))
      ≡ done current)
    × (fetch_ready env naming receiver true receiver.spec.hashrings [] ≡ done fetched)
    × StandsFor env naming receiver true "json"
        (merge (policy_of env naming receiver true none) current fetched (pos 1))
    × (All (HasReplicas env naming receiver true) receiver.spec.hashrings
        → HasQuorum (pos 1) current
        → HasQuorum
            (pos 1)
            (merge (policy_of env naming receiver true none) current fetched (pos 1)))
build_hashring_config-merge_example =
    build_hashring_config-merge env naming receiver true "json" first_text
