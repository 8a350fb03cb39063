-- ===== src/Controllers/Query/Discovered.antt =====
-- The endpoints that a query is given.
use mathlib.Core.Path.{subst}
use mathlib.Core.List.{Permᴰ, Memᴰ}
use mathlib.Core.List.Permᴰ
use mathlib.Core.List.Memᴰ
use thanos_operator.Common.{
  ℕ, List, [], ◌∷◌, Option, none, some, map, sort_by-perm, sort_by-IsSorted, IsSorted, key_lt,
  key_order, mem-perm, ◌≡◌, ◌≢◌, ◌↔◌, refl, sym, ap, inl, inr,
}
use thanos_operator.Manifests.Services.{is_grpc_service_with_labels}
use thanos_operator.Controllers.Query.{
  Service, Endpoint, candidate, zero_endpoint, endpoint_at_port, store_endpoint, store_endpoints,
}
use thanos_operator.Controllers.Selectors.{required_store_service_label}

-- The loop and the sort, also for no service.
pub store_endpoints-perm :
    (svcs : List Service) → Permᴰ (store_endpoints svcs) (map store_endpoint svcs)
unfolding store_endpoints
store_endpoints-perm [] = Permᴰ.nil
store_endpoints-perm (svc ∷ svcs) =
    sort_by-perm (key_lt (λ (e : Endpoint). e.service_name)) (map store_endpoint (svc ∷ svcs))

store_endpoints-IsSorted :
    (svcs : List Service)
    → IsSorted (key_lt (λ (e : Endpoint). e.service_name)) (store_endpoints svcs)
unfolding store_endpoints
store_endpoints-IsSorted [] = tt
store_endpoints-IsSorted (svc ∷ svcs) =
    sort_by-IsSorted (key_order (λ (e : Endpoint). e.service_name))
      (map store_endpoint (svc ∷ svcs))

pub mem-map :
    (e : Endpoint) (svcs : List Service)
    → Memᴰ e (map store_endpoint svcs)
    → (svc : Service) × Memᴰ svc svcs × (e ≡ store_endpoint svc)
mem-map e [] m = absurd (Memᴰ.not-nil m)
mem-map e (svc ∷ svcs) m = elim (Memᴰ.cases_cons m) [
  | inl same ↦ (svc, Memᴰ.head refl, same)
  | inr later ↦ let (found, where_, same) = mem-map e svcs later in (found, Memᴰ.tail where_, same)
]

abbrev pub port_of : Service → Option ℕ
port_of svc = is_grpc_service_with_labels (candidate svc) required_store_service_label

endpoint_at_port-zero :
    (svc : Service) (port : Option ℕ)
    → svc.name ≢ ""
    → endpoint_at_port svc port ≡ zero_endpoint
    → port ≡ none
unfolding endpoint_at_port
endpoint_at_port-zero svc none named h = refl
endpoint_at_port-zero svc (some p) named h =
    absurd (named (ap (λ (e : Endpoint). e.service_name) h))

-- The endpoints of a query are sorted by the names of their Services, and there is one for each listed
-- Service, in some order. Among them is the zero endpoint, which names no Service and has port 0,
-- exactly if a listed Service is not a gRPC service; where Services have names.
pub store_endpoints-zero :
    (svcs : List Service)
    → ((svc : Service) → Memᴰ svc svcs → svc.name ≢ "")
    → Permᴰ (store_endpoints svcs) (map store_endpoint svcs)
      × IsSorted (key_lt (λ (e : Endpoint). e.service_name)) (store_endpoints svcs)
      × (Memᴰ zero_endpoint (store_endpoints svcs)
          ↔ (svc : Service) × Memᴰ svc svcs × (port_of svc ≡ none))
unfolding store_endpoint endpoint_at_port
store_endpoints-zero svcs named = (
  store_endpoints-perm svcs,
  store_endpoints-IsSorted svcs,
  (
    (λ m.
        let (svc, there, same) =
          mem-map zero_endpoint svcs (mem-perm (store_endpoints-perm svcs) m) in
        (svc, there, endpoint_at_port-zero svc (port_of svc) (named svc there) (sym same))),
    (λ (svc, there, portless). mem-perm (Permᴰ.symm (store_endpoints-perm svcs)) (
        subst (λ e. Memᴰ e (map store_endpoint svcs)) (ap (endpoint_at_port svc) portless)
          (Memᴰ.map store_endpoint there))),
  ),
)
