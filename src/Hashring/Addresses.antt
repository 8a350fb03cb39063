-- ===== src/Hashring/Addresses.antt =====
-- The two converters, and the endpoints of a hashring as the controller asks for them.
use Prim.Native.String.{◌++◌ as concat}
use mathlib.Core.List.{Memᴰ}
use text.Mathlib.TextLemmas.{append_cancel_right, append-eq-nil_iff, append_assoc as concat_assoc}
use thanos_operator.Common.Opt.{>>=-eq-some, some-eq}
use thanos_operator.Common.{
  String, eq_iff, List, ◌≡◌, ◌≢◌, ◌↔◌, inl, inr, refl, sym, ap, ◌∙◌, some, All-of_mem, sort_by,
  arith, Option-cases, index, mem-perm, sort_by-perm,
}
use mathlib.Core.List.Permᴰ
use thanos_operator.Hashring.Types.{Endpoint}
use thanos_operator.Hashring.Endpoints.{
  DiscoveryEndpoint, EndpointSlice, EndpointConverter, service_address, label_service_name,
  default_endpoint_converter, capn_proto_endpoint_converter, gather, endpoint_lt, compact,
  endpoint_slice_list_to_endpoints,
}
use thanos_operator.Hashring.Discovery.{
  IsStrictlySorted, IsDetermined, mem-compact, compact-sort_by-strict,
}
use thanos_operator.Hashring.Ready.{
  IsReady, IgnoresEndpoints, FromReady, ready_only, mem-gather, gather_total,
}

-- `spec.router.replicationProtocol`
pub data ReplicationProtocol : Type 0 where
  protobuf capn_proto : ReplicationProtocol

-- The choice of a converter in `buildHashringConfig`.
unfoldable pub converter_of : ReplicationProtocol → EndpointConverter
converter_of protobuf = default_endpoint_converter
converter_of capn_proto = capn_proto_endpoint_converter

converter_of-IgnoresEndpoints : (p : ReplicationProtocol) → IgnoresEndpoints (converter_of p)
unfolding converter_of default_endpoint_converter capn_proto_endpoint_converter
converter_of-IgnoresEndpoints protobuf s eps ep = refl
converter_of-IgnoresEndpoints capn_proto s eps ep = refl

dot_ne-nil : ◌≢◌ {A = String} "." ""
dot_ne-nil = ground (arith, eq_iff "." "")

service_address-ne-nil : (host svc ns port : String) → service_address host svc ns port ≢ ""
unfolding service_address
service_address-ne-nil host svc ns port h =
    let rest = (append-eq-nil_iff.0 h).1 in dot_ne-nil ((append-eq-nil_iff.0 rest).0)

stem : String → String → String → String
stem host svc ns = concat host (concat "." (concat svc (concat "." (concat ns ".svc:"))))

service_address-stem :
    (host svc ns port : String) → service_address host svc ns port ≡ concat (stem host svc ns) port
unfolding service_address stem
service_address-stem host svc ns port = simp concat_assoc

-- An address determines the address that differs from it in the port.
service_address-port :
    (h h' s s' n n' p q : String)
    → service_address h s n p ≡ service_address h' s' n' p
    → service_address h s n q ≡ service_address h' s' n' q
service_address-port h h' s s' n n' p q e =
    let stems =
      append_cancel_right (stem h s n) (stem h' s' n') p
        (sym (service_address-stem h s n p) ∙ e ∙ service_address-stem h' s' n' p) in
    service_address-stem h s n q
    ∙ ap (λ z. concat z q) stems
    ∙ sym (service_address-stem h' s' n' q)

-- What each converter makes of a named endpoint.
unfoldable pub named_endpoint : ReplicationProtocol → EndpointSlice → String → Endpoint
named_endpoint protobuf s host = record {
  address = service_address host (index label_service_name s.labels) s.namespace "10901";
  capn_proto_address = "";
  az = "";
}
named_endpoint capn_proto s host = record {
  address = service_address host (index label_service_name s.labels) s.namespace "10901";
  capn_proto_address = service_address host (index label_service_name s.labels) s.namespace "19391";
  az = "";
}

converter_of-some :
    (p : ReplicationProtocol) (s : EndpointSlice) (ep : DiscoveryEndpoint) {e : Endpoint}
    → converter_of p s ep ≡ some e
    → (host : String) × (ep.hostname ≡ some host) × (e ≡ named_endpoint p s host)
unfolding converter_of default_endpoint_converter capn_proto_endpoint_converter named_endpoint
converter_of-some protobuf s ep h = elim (Option-cases ep.hostname) [
  | inl e ↦ cc (rw e at h)
  | inr (host, e) ↦ (host, e, sym (some-eq (rw e at h)))
]
converter_of-some capn_proto s ep h = elim (Option-cases ep.hostname) [
  | inl e ↦ cc (rw e at h)
  | inr (host, e) ↦ (host, e, sym (some-eq (rw e at h)))
]

converter_of_named :
    (p : ReplicationProtocol) (s : EndpointSlice) (ep : DiscoveryEndpoint) (host : String)
    → ep.hostname ≡ some host
    → converter_of p s ep ≡ some (named_endpoint p s host)
unfolding converter_of default_endpoint_converter capn_proto_endpoint_converter named_endpoint
converter_of_named protobuf s ep host e = rw e refl
converter_of_named capn_proto s ep host e = rw e refl

named_endpoint-ne-nil :
    (p : ReplicationProtocol) (s : EndpointSlice) (host : String)
    → (named_endpoint p s host).address ≢ ""
unfolding named_endpoint
named_endpoint-ne-nil protobuf s host = service_address-ne-nil host _ _ _
named_endpoint-ne-nil capn_proto s host = service_address-ne-nil host _ _ _

named_endpoint-determined :
    (p : ReplicationProtocol) (s t : EndpointSlice) (host host' : String)
    → (named_endpoint p s host).address ≡ (named_endpoint p t host').address
    → named_endpoint p s host ≡ named_endpoint p t host'
unfolding named_endpoint
named_endpoint-determined protobuf s t host host' e = cc
named_endpoint-determined capn_proto s t host host' e = cc (
    service_address-port host host' (index label_service_name s.labels)
      (index label_service_name t.labels) s.namespace t.namespace "10901" "19391" e)

module _ (p : ReplicationProtocol) (items : List EndpointSlice) where
  -- Where an endpoint comes from: a ready endpoint with a hostname, of one of the slices.
  abbrev pub IsOfReady : Endpoint → Type 0
  IsOfReady e =
      (s : EndpointSlice) × (ep : DiscoveryEndpoint) × (host : String) × Memᴰ s items
      × Memᴰ ep s.endpoints
      × IsReady ep
      × (ep.hostname ≡ some host)
      × (e ≡ named_endpoint p s host)

  FromReady→IsOfReady : (e : Endpoint) → FromReady (converter_of p) items e → IsOfReady e
  FromReady→IsOfReady e (s, ep, ms, mep, ready, h) =
      let (host, named, made) = converter_of-some p s ep h in
      (s, ep, host, ms, mep, ready, named, made)

  IsOfReady→FromReady : (e : Endpoint) → IsOfReady e → FromReady (converter_of p) items e
  IsOfReady→FromReady e (s, ep, host, ms, mep, ready, named, made) =
      (s, ep, ms, mep, ready, converter_of_named p s ep host named ∙ ap some (sym made))

  -- Where the endpoints are computed, they are exactly those that the protocol's converter makes
  -- of the ready endpoints of the slices, in the strict order of their addresses: none is listed
  -- twice.
  pub mem-endpoint_slice_list_to_endpoints :
      {es : List Endpoint}
      → endpoint_slice_list_to_endpoints (converter_of p) items ready_only ≡ some es
      → IsStrictlySorted es × ((e : Endpoint) → Memᴰ e es ↔ IsOfReady e)
  unfolding endpoint_slice_list_to_endpoints
  mem-endpoint_slice_list_to_endpoints h =
      let (xs, hx, hs) = >>=-eq-some (gather (converter_of p) ready_only items) _ h in
      let source = λ (e : Endpoint).
        mem-gather (converter_of p) (converter_of-IgnoresEndpoints p) items hx e in
      let addressed =
        All-of_mem (λ (e : Endpoint). e.address ≢ "") xs
          (λ e m.
            let (s, ep, host, ms, mep, ready, named, made) =
              FromReady→IsOfReady e ((source e).0 m) in
            rw made (named_endpoint-ne-nil p s host)) in
      let determined : IsDetermined xs = λ a b ma mb same.
        let (s, ep, host, ms, mep, ready, named, made) = FromReady→IsOfReady a ((source a).0 ma) in
        let (t, ep', host', ms', mep', ready', named', made') =
          FromReady→IsOfReady b ((source b).0 mb) in
        made ∙ named_endpoint-determined p s t host host' (rw (made, made') at same) ∙ sym made' in
      rw (sym (some-eq hs)) (
        compact-sort_by-strict xs addressed determined,
        λ e.
            let sorted = sort_by-perm endpoint_lt xs in
            (
              (λ m.
                  FromReady→IsOfReady e (
                    (source e).0 (mem-perm sorted ((mem-compact e (sort_by endpoint_lt xs)).0 m)))),
              (λ o.
                  (mem-compact e (sort_by endpoint_lt xs)).1
                    (mem-perm (Permᴰ.symm sorted) ((source e).1 (IsOfReady→FromReady e o)))),
            ),
      )

  -- The endpoints are computed if every ready endpoint has a hostname.
  pub endpoint_slice_list_to_endpoints_total :
      ((s : EndpointSlice) (ep : DiscoveryEndpoint)
        → Memᴰ s items
        → Memᴰ ep s.endpoints
        → IsReady ep
        → (host : String) × (ep.hostname ≡ some host))
      → (es : List Endpoint) × (endpoint_slice_list_to_endpoints (converter_of p) items ready_only
          ≡ some es)
  unfolding endpoint_slice_list_to_endpoints
  endpoint_slice_list_to_endpoints_total h =
      let (xs, hx) =
        gather_total (converter_of p) (converter_of-IgnoresEndpoints p) items (λ s ep ms mep ready.
          let (host, named) = h s ep ms mep ready in
          (named_endpoint p s host, converter_of_named p s ep host named)) in
      (compact (sort_by endpoint_lt xs), rw hx refl)
