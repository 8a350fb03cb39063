-- ===== src/Controllers/Receive.antt =====
-- internal/controller/thanosreceive_controller.go: `buildHashringConfig`, over the ConfigMap of the router,
-- the EndpointSlices and the JSON of configurations, which are parameters.
pub mod Written
pub mod Syncing
pub mod Args
mod Tests
use thanos_operator.Common.{
  ℤ, String, Bool, ◌==◌, List, [], ◌∷◌, Option, none, some, Labels, index, insert, if◌then◌else◌,
}
use thanos_operator.Handlers.{get_endpoint_slices}
use thanos_operator.Controllers.Reconciling.{Resource}
use thanos_operator.Controllers.Selectors.{ingester_resource_name, router_resource_name}
use thanos_operator.Hashring.Types.{
  HashringAlgorithm, ketama, hashmod, Endpoint, HashringConfig, HashringMeta, HashringState,
  Hashrings,
}
use thanos_operator.Hashring.Endpoints.{
  EndpointSlice, EndpointConverter, filter_endpoint_ready, default_endpoint_converter,
  capn_proto_endpoint_converter, endpoint_slice_list_to_endpoints,
}
use thanos_operator.Hashring.Runs.{HashringPolicy, static, dynamic, merge}
use thanos_operator.Manifests.Names.{Naming}

pub record TenancyConfig : Type 0 where
  pub tenants : List String
  pub tenant_matcher_type : String

-- `IngesterHashringSpec`
pub record HashringSpec : Type 0 where
  pub name : String
  pub replicas : ℤ
  pub hashing_algorithm : Option String
  pub tenancy_config : Option TenancyConfig

pub data ReplicationProtocol : Type 0 where
  protobuf : ReplicationProtocol
  capn_proto : ReplicationProtocol

pub record ReceiveSpec : Type 0 where
  pub router_replicas : ℤ
  pub replication_factor : ℤ
  pub replication_protocol : Option ReplicationProtocol
  pub hashring_policy : Option HashringPolicy
  pub hashrings : List HashringSpec

-- The answer to the call that gets the ConfigMap; its data may be `nil`.
pub data ConfigMapRead : Type 0 where
  config_map : Option Labels → ConfigMapRead
  config_map_missing : ConfigMapRead
  config_map_failed : String → ConfigMapRead

-- A result, or an error; or a nil hostname is followed.
pub data Outcome (R : Type 0) : Type 0 where
  done : R → Outcome R
  not_done : String → Outcome R
  outcome_panics : Outcome R

unfoldable pub then_with : {R Q : Type 0} → Outcome R → (R → Outcome Q) → Outcome Q
then_with (done r) f = f r
then_with (not_done e) f = not_done e
then_with outcome_panics f = outcome_panics

abbrev pub hashring_config_key : String
hashring_config_key = "hashrings.json"

-- The JSON of configurations, and the calls that read.
pub record HashringEnvironment (S : Type 0) : Type 0 where
  pub encode : Hashrings → Option String
  pub decode : String → Option Hashrings
  pub get_config_map : S → String → String → ConfigMapRead
  pub list_endpoint_slices : S → String × String → String → Option (List EndpointSlice)

module _ {S : Type 0} (env : HashringEnvironment S) where
  unfoldable pub decoded : Option Hashrings → Outcome Hashrings
  decoded none = not_done "failed to unmarshal current state from ConfigMap"
  decoded (some hashrings) = done hashrings

  -- The current state; the empty text stands for no hashring.
  unfoldable pub current_state : ConfigMapRead → Outcome Hashrings
  unfolding decoded
  current_state (config_map none) = done []
  current_state (config_map (some data_)) =
      if index hashring_config_key data_ == ""
      then done []
      else decoded (env.decode (index hashring_config_key data_))
  current_state config_map_missing = done []
  current_state (config_map_failed e) = not_done e

  unfoldable pub converter_for : Option ReplicationProtocol → EndpointConverter
  converter_for none = default_endpoint_converter
  converter_for (some protobuf) = default_endpoint_converter
  converter_for (some capn_proto) = capn_proto_endpoint_converter

  unfoldable pub algorithm_for : Option String → HashringAlgorithm
  algorithm_for none = ketama
  algorithm_for (some name) = if name == hashmod then hashmod else ketama

  unfoldable pub with_tenancy : Option TenancyConfig → HashringConfig → HashringConfig
  with_tenancy none hc = hc
  with_tenancy (some tenancy) hc = record hc {
    tenants = tenancy.tenants;
    tenant_matcher_type = tenancy.tenant_matcher_type;
  }

  unfoldable pub fetched_meta : HashringSpec → List Endpoint → HashringMeta
  unfolding algorithm_for with_tenancy
  fetched_meta hashring endpoints = record {
    desired_replicas = hashring.replicas;
    config = with_tenancy hashring.tenancy_config (record {
      name = hashring.name;
      tenants = [];
      tenant_matcher_type = "";
      endpoints = endpoints;
      algorithm = algorithm_for hashring.hashing_algorithm;
      external_labels = [];
    });
  }

  unfoldable pub listed_endpoints :
      EndpointConverter → Option (List EndpointSlice) → Outcome (List Endpoint)
  unfolding endpoint_slice_list_to_endpoints
  listed_endpoints converter none = not_done "failed to get endpoint slices"
  listed_endpoints converter (some eps) =
      elim (endpoint_slice_list_to_endpoints converter eps (filter_endpoint_ready ∷ [])) [
        | none ↦ outcome_panics
        | some endpoints ↦ done endpoints
      ]

  module _ (naming : Naming) (receiver : Resource ReceiveSpec) (s : S) where
    unfoldable pub endpoints_of : HashringSpec → Outcome (List Endpoint)
    unfolding listed_endpoints converter_for get_endpoint_slices
    endpoints_of hashring = listed_endpoints (converter_for receiver.spec.replication_protocol) (
        get_endpoint_slices (env.list_endpoint_slices s)
          (ingester_resource_name naming receiver.object.name hashring.name)
          receiver.object.namespace)

    -- The loop over the hashrings of the resource.
    unfoldable pub fetch_ready : List HashringSpec → HashringState → Outcome HashringState
    unfolding then_with endpoints_of fetched_meta insert
    fetch_ready [] fetched = done fetched
    fetch_ready (hashring ∷ hashrings) fetched = then_with (endpoints_of hashring) λ endpoints.
        fetch_ready hashrings (insert hashring.name (fetched_meta hashring endpoints) fetched)

    unfoldable pub policy_of : Option HashringPolicy → HashringPolicy
    policy_of none = dynamic
    policy_of (some policy) = policy

    unfoldable pub written : Hashrings → Outcome String
    written [] = done ""
    written (h ∷ hs) = elim (env.encode (h ∷ hs)) [
      | none ↦ not_done "failed to marshal hashring config"
      | some text ↦ done text
    ]

    unfoldable pub build_hashring_config : Outcome String
    unfolding then_with current_state fetch_ready policy_of written merge router_resource_name
    build_hashring_config =
        then_with
          (current_state (
            env.get_config_map s receiver.object.namespace
              (router_resource_name naming receiver.object.name)))
          λ current. then_with (fetch_ready receiver.spec.hashrings []) λ fetched. written (
            merge (policy_of receiver.spec.hashring_policy) current fetched
              receiver.spec.replication_factor)
