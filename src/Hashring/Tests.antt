-- ===== src/Hashring/Tests.antt =====
-- Runs of the hashring functions on small inputs, and their theorems at such inputs.
use mathlib.Core.Path.{subst}
use mathlib.Core.List.{Memᴰ, Permᴰ}
use mathlib.Core.List.Memᴰ
use thanos_operator.Common.{
  ℕ, pos, String, Bool, true, false, List, [], ◌∷◌, ◌≡◌, ◌≢◌, ◌↔◌, refl, some, All-mem, eq_iff,
  arith, collect, sort_by, lookup, IsSorted,
}
use thanos_operator.Hashring.Types.{
  Endpoint, HashringConfig, HashringMeta, HashringState, Hashrings, meta_to_hashring,
  is_empty_hashring, trim_to, ketama,
}
use thanos_operator.Hashring.Endpoints.{
  DiscoveryEndpoint, EndpointSlice, endpoint_slice_list_to_endpoints, label_service_name, gather,
  filter_endpoint_ready, compact, endpoint_lt, default_endpoint_converter, service_address,
  ready_endpoints, same_endpoint,
}
use thanos_operator.Hashring.Merge.{
  dynamic_merge, static_merge, dynamic_entry, static_entry, unseen_entry, handle_unseen_hashrings,
  previous_named, tolerates, complete, trimmed, name_lt,
}
use thanos_operator.Hashring.Contents.{
  Source, IsTolerable, IsComplete, cut_to_desired, mem-dynamic_merge, mem-static_merge,
}
use thanos_operator.Hashring.Order.{dynamic_merge-perm}
use thanos_operator.Hashring.Runs.{
  dynamic, static, merge, HasQuorum, merge-HasQuorum, run, HasName, run-HasName,
}
use thanos_operator.Hashring.Discovery.{IsStrictlySorted}
use thanos_operator.Hashring.Ready.{IsReady, ready_only}
use thanos_operator.Hashring.Addresses.{
  protobuf, capn_proto, converter_of, IsOfReady, mem-endpoint_slice_list_to_endpoints,
  endpoint_slice_list_to_endpoints_total,
}
use thanos_operator.Hashring.Metric.{AreBytes}

abbrev endpoint : String → Endpoint
endpoint a = record { address = a; capn_proto_address = ""; az = "" }

abbrev config : String → List Endpoint → HashringConfig
config n es = record {
  name = n;
  tenants = [];
  tenant_matcher_type = "";
  endpoints = es;
  algorithm = ketama;
  external_labels = [];
}

abbrev wanted : ℕ → String → List Endpoint → HashringMeta
wanted n k es = record { desired_replicas = pos n; config = config k es }

abbrev one : List Endpoint
one = endpoint "x" ∷ []

abbrev two : List Endpoint
two = endpoint "x" ∷ endpoint "y" ∷ []

abbrev three : List Endpoint
three = endpoint "x" ∷ endpoint "y" ∷ endpoint "z" ∷ []

abbrev in_use_state : Hashrings
in_use_state = config "a" three ∷ config "b" three ∷ []

-- One replica of `a` is missing, and two of `b`.
abbrev observed : HashringState
observed = ("b", wanted 3 "b" one) ∷ ("a", wanted 3 "a" two) ∷ []

abbrev observed_shuffled : HashringState
observed_shuffled = ("a", wanted 3 "a" two) ∷ ("b", wanted 3 "b" one) ∷ []

program : Unit {0}
unfolding dynamic_merge static_merge dynamic_entry static_entry unseen_entry handle_unseen_hashrings
    previous_named tolerates complete trimmed trim_to is_empty_hashring meta_to_hashring collect
    sort_by
program = tt

dynamic_merge_tolerant :
    dynamic_merge in_use_state observed (pos 1) ≡ config "a" two ∷ config "b" three ∷ []
unfolding program
dynamic_merge_tolerant = refl

static_merge_strict : static_merge in_use_state observed (pos 1) ≡ in_use_state
unfolding program
static_merge_strict = refl

static_merge_trims :
    static_merge in_use_state (("a", wanted 2 "a" three) ∷ []) (pos 1) ≡ config "a" two ∷ []
unfolding program
static_merge_trims = refl

dynamic_merge_first : dynamic_merge [] observed (pos 1) ≡ []
unfolding program
dynamic_merge_first = refl

in_use_lem : is_empty_hashring in_use_state ≡ false
unfolding is_empty_hashring
in_use_lem = refl

mem-dynamic_merge_example :
    Memᴰ (config "a" two) (dynamic_merge in_use_state observed (pos 1))
    ↔ Source (IsTolerable (pos 1)) meta_to_hashring in_use_state observed (config "a" two)
mem-dynamic_merge_example =
    mem-dynamic_merge in_use_state observed (pos 1) (config "a" two) in_use_lem

mem-static_merge_example :
    Memᴰ (config "a" three) (static_merge in_use_state observed (pos 1))
    ↔ Source (IsComplete (pos 1)) cut_to_desired in_use_state observed (config "a" three)
mem-static_merge_example =
    mem-static_merge in_use_state observed (pos 1) (config "a" three) in_use_lem

b_ne_a : ◌≢◌ {A = String} "b" "a"
b_ne_a = ground (arith, eq_iff "b" "a")

a_ne_b : ◌≢◌ {A = String} "a" "b"
a_ne_b = ground (arith, eq_iff "a" "b")

dynamic_merge-perm_example :
    (dynamic_merge in_use_state observed (pos 1)
      ≡ dynamic_merge in_use_state observed_shuffled (pos 1))
    × ((out : Hashrings)
        → Permᴰ out (collect (dynamic_entry in_use_state (pos 1)) observed_shuffled)
        → IsSorted name_lt out
        → out ≡ dynamic_merge in_use_state observed (pos 1))
dynamic_merge-perm_example =
    dynamic_merge-perm in_use_state (pos 1) in_use_lem ((a_ne_b, tt), (tt, tt))
      ((b_ne_a, tt), (tt, tt)) (Permᴰ.swap refl refl)

run-HasName_example :
    HasName "b" (run static (pos 2) in_use_state (observed ∷ observed_shuffled ∷ []))
    × HasQuorum (pos 2) (run static (pos 2) in_use_state (observed ∷ observed_shuffled ∷ []))
run-HasName_example =
    run-HasName (pos 2) static "b" in_use_state (observed ∷ observed_shuffled ∷ []) (omega arith)
      (omega arith) (config "b" three, Memᴰ.tail (Memᴰ.head refl), refl)
      (
        (omega arith, (wanted 3 "b" one, Memᴰ.head refl)),
        ((omega arith, (wanted 3 "b" one, Memᴰ.tail (Memᴰ.head refl))), tt),
      )

merge-HasQuorum_example : HasQuorum (pos 2) (merge dynamic in_use_state observed (pos 2))
merge-HasQuorum_example =
    merge-HasQuorum (pos 2) dynamic in_use_state observed (omega arith) (omega arith)

abbrev pod : String → Bool → DiscoveryEndpoint
pod host ready = record { hostname = some host; ready = some ready }

abbrev slice : EndpointSlice
slice = record {
  namespace = "ns";
  labels = (label_service_name, "svc") ∷ [];
  owners = "svc" ∷ [];
  endpoints = pod "p1" true ∷ pod "p0" true ∷ pod "p2" false ∷ pod "p0" true ∷ [];
}

abbrev listed : List Endpoint
listed = endpoint "p0.svc.ns.svc:10901" ∷ endpoint "p1.svc.ns.svc:10901" ∷ []

listed_lem :
    endpoint_slice_list_to_endpoints (converter_of protobuf) (slice ∷ []) ready_only ≡ some listed
unfolding endpoint_slice_list_to_endpoints gather filter_endpoint_ready ready_endpoints sort_by
    compact endpoint_lt same_endpoint default_endpoint_converter service_address converter_of lookup
listed_lem = refl

mem-endpoint_slice_list_to_endpoints_example :
    IsStrictlySorted listed × ((e : Endpoint) → Memᴰ e listed ↔ IsOfReady protobuf (slice ∷ []) e)
mem-endpoint_slice_list_to_endpoints_example =
    mem-endpoint_slice_list_to_endpoints protobuf (slice ∷ []) listed_lem

abbrev IsNamed : DiscoveryEndpoint → Type 0
IsNamed ep = (host : String) × (ep.hostname ≡ some host)

slice-IsNamed :
    (s : EndpointSlice) (ep : DiscoveryEndpoint)
    → Memᴰ s (slice ∷ [])
    → Memᴰ ep s.endpoints
    → IsReady ep
    → IsNamed ep
slice-IsNamed s ep ms mep ready =
    All-mem IsNamed slice.endpoints
      (("p1", refl), (("p0", refl), (("p2", refl), (("p0", refl), tt))))
      (subst (λ (t : EndpointSlice). Memᴰ ep t.endpoints) (Memᴰ.eq_of_singleton ms) mep)

endpoint_slice_list_to_endpoints_total_example :
    (es : List Endpoint) × (endpoint_slice_list_to_endpoints
        (converter_of capn_proto)
        (slice ∷ [])
        ready_only
      ≡ some es)
endpoint_slice_list_to_endpoints_total_example =
    endpoint_slice_list_to_endpoints_total capn_proto (slice ∷ []) slice-IsNamed

sum_lem : AreBytes (255 ∷ 255 ∷ 255 ∷ 255 ∷ 255 ∷ 255 ∷ 1 ∷ [])
sum_lem = (
  omega arith,
  (omega arith, (omega arith, (omega arith, (omega arith, (omega arith, (omega arith, tt)))))),
)

-- An endpoint written as an object, by an encoder that keeps it.
