-- ===== src/Hashring/Endpoints.antt =====
-- internal/pkg/receive/hashrings.go: the endpoints of a hashring from the EndpointSlices of its
-- Service. A panic (a `nil` hostname that is dereferenced) is `none`.
use Prim.Native.String.{◌++◌ as concat}
use thanos_operator.Common.{
  String, Bool, false, not, ◌&&◌, ◌==◌, List, [], ◌∷◌, ◌++◌, Option, none, some, Labels, index,
  str_lt, sort_by, if◌then◌else◌,
}
use thanos_operator.Common.Opt.{◌>>=◌}
use thanos_operator.Hashring.Types.{Endpoint}

pub record DiscoveryEndpoint : Type 0 where
  pub hostname : Option String
  pub ready : Option Bool

pub record EndpointSlice : Type 0 where
  pub namespace : String
  pub labels : Labels
  -- The names of the owner references.
  pub owners : List String
  pub endpoints : List DiscoveryEndpoint

-- An `EndpointFilter`, applied.
abbrev pub EndpointFilter : Type 0
EndpointFilter = EndpointSlice → List DiscoveryEndpoint

unfoldable pub owned_endpoints :
    String → List String → List DiscoveryEndpoint → List DiscoveryEndpoint
owned_endpoints expect_owner [] eps = []
owned_endpoints expect_owner (owner ∷ owners) eps =
    if owner == expect_owner then eps else owned_endpoints expect_owner owners eps

unfoldable pub filter_endpoint_by_owner_ref : String → EndpointFilter
filter_endpoint_by_owner_ref expect_owner ep = owned_endpoints expect_owner ep.owners ep.endpoints

unfoldable pub is_ready : DiscoveryEndpoint → Bool
is_ready ep = elim ep.ready [ none ↦ false | some b ↦ b ]

unfoldable pub ready_endpoints : List DiscoveryEndpoint → List DiscoveryEndpoint
unfolding is_ready
ready_endpoints [] = []
ready_endpoints (ep ∷ eps) = if is_ready ep then ep ∷ ready_endpoints eps else ready_endpoints eps

unfoldable pub filter_endpoint_ready : EndpointFilter
filter_endpoint_ready eps = ready_endpoints eps.endpoints

abbrev pub label_service_name : String
label_service_name = "kubernetes.io/service-name"

-- `fmt.Sprintf("%s.%s.%s.svc:%d", host, svcName, ns, port)`, with the port's digits.
unfoldable pub service_address : String → String → String → String → String
service_address host svc ns port =
    concat host (concat "." (concat svc (concat "." (concat ns (concat ".svc:" port)))))

abbrev pub EndpointConverter : Type 0
EndpointConverter = EndpointSlice → DiscoveryEndpoint → Option Endpoint

unfoldable pub default_endpoint_converter : EndpointConverter
default_endpoint_converter eps ep = elim ep.hostname [
  | none ↦ none
  | some host ↦ some (record {
    address = service_address host (index label_service_name eps.labels) eps.namespace "10901";
    capn_proto_address = "";
    az = "";
  })
]

unfoldable pub capn_proto_endpoint_converter : EndpointConverter
capn_proto_endpoint_converter eps ep = elim ep.hostname [
  | none ↦ none
  | some host ↦ some (record {
    address = service_address host (index label_service_name eps.labels) eps.namespace "10901";
    capn_proto_address =
        service_address host (index label_service_name eps.labels) eps.namespace "19391";
    az = "";
  })
]

-- The loop over the filters: each one sees the endpoints that the ones before it left.
unfoldable pub apply_filters : List EndpointFilter → EndpointSlice → EndpointSlice
apply_filters [] ep_slice = ep_slice
apply_filters (fn ∷ filters) ep_slice =
    apply_filters filters (record ep_slice { endpoints = fn ep_slice })

unfoldable pub convert_all :
    EndpointConverter → EndpointSlice → List DiscoveryEndpoint → Option (List Endpoint)
convert_all converter ep_slice [] = some []
convert_all converter ep_slice (ep ∷ eps) = do
  e ← converter ep_slice ep
  es ← convert_all converter ep_slice eps
  some (e ∷ es)

unfoldable pub gather :
    EndpointConverter → List EndpointFilter → List EndpointSlice → Option (List Endpoint)
unfolding apply_filters convert_all
gather converter filters [] = some []
gather converter filters (item ∷ items) = do
  let ep_slice = apply_filters filters item
  es ← convert_all converter ep_slice ep_slice.endpoints
  rest ← gather converter filters items
  some (es ++ rest)

-- The order that `sort.Slice` is given.
unfoldable pub endpoint_lt : Endpoint → Endpoint → Bool
endpoint_lt a b =
    if not (a.address == "") && not (b.address == "")
    then str_lt a.address b.address
    else if not (a.capn_proto_address == "") && not (b.capn_proto_address == "")
    then str_lt a.capn_proto_address b.capn_proto_address
    else false

-- `==` of two endpoints: field by field.
unfoldable pub same_endpoint : Endpoint → Endpoint → Bool
same_endpoint a b =
    a.address == b.address && a.capn_proto_address == b.capn_proto_address && a.az == b.az

-- `slices.Compact`: an element equal to the one before it is dropped.
unfoldable pub compact_after : Endpoint → List Endpoint → List Endpoint
compact_after p [] = []
compact_after p (x ∷ xs) =
    let rest = compact_after x xs in if same_endpoint p x then rest else x ∷ rest

unfoldable pub compact : List Endpoint → List Endpoint
unfolding compact_after
compact [] = []
compact (x ∷ xs) = x ∷ compact_after x xs

unfoldable pub endpoint_slice_list_to_endpoints :
    EndpointConverter → List EndpointSlice → List EndpointFilter → Option (List Endpoint)
endpoint_slice_list_to_endpoints converter items filters = do
  endpoints ← gather converter filters items
  some (compact (sort_by endpoint_lt endpoints))
