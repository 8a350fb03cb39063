-- ===== src/Controllers/Query/Panicking.antt =====
-- When the command line of the querier cannot be built from the Services that were found.
use mathlib.Core.List.{Memᴰ}
use mathlib.Core.List.Permᴰ
use mathlib.Core.List.Memᴰ
use thanos_operator.Common.{
  ℕ, String, List, [], ◌∷◌, Option, none, some, mem-perm, ◌≡◌, ◌⊎◌, ◌↔◌, refl, sym, ap, inl, inr,
  ◌∙◌, Option-cases,
}
use thanos_operator.Common.Opt.{◌>>=◌}
use thanos_operator.Controllers.Query.{
  Service, Endpoint, endpoint_at_port, store_endpoint, store_endpoints,
}
use thanos_operator.Controllers.Query.Args.{QueryOptions, endpoint_arg, endpoint_args, query_args}
use thanos_operator.Controllers.Query.Discovered.{port_of, store_endpoints-perm, mem-map}

bind-none :
    {A B : Type 0} (m : Option A) (f : A → Option B)
    → (m >>= f) ≡ none
    → (m ≡ none) ⊎ ((a : A) × (m ≡ some a) × (f a ≡ none))
bind-none none f h = inl refl
bind-none (some a) f h = inr (a, refl, h)

endpoint_at_port-untyped :
    (svc : Service) (port : Option ℕ)
    → (endpoint_at_port svc port).endpoint_type ≡ none
    → port ≡ none
unfolding endpoint_at_port
endpoint_at_port-untyped svc none h = refl
endpoint_at_port-untyped svc (some port) h = cc

module _ (decimal : ℕ → String) where
  endpoint_arg-untyped : (ep : Endpoint) → endpoint_arg decimal ep ≡ none → ep.endpoint_type ≡ none
  unfolding endpoint_arg
  endpoint_arg-untyped ep h = elim (bind-none ep.endpoint_type _ h) [
    | inl n ↦ n
    | inr (t, e, k) ↦ cc
  ]

  endpoint_args-untyped :
      (eps : List Endpoint)
      → endpoint_args decimal eps ≡ none
      → (ep : Endpoint) × Memᴰ ep eps × (ep.endpoint_type ≡ none)
  unfolding endpoint_args
  endpoint_args-untyped [] h = cc
  endpoint_args-untyped (ep ∷ eps) h = elim (bind-none (endpoint_arg decimal ep) _ h) [
    | inl n ↦ (ep, Memᴰ.head refl, endpoint_arg-untyped ep n)
    | inr (arg, e, g) ↦ elim (bind-none (endpoint_args decimal eps) _ g) [
      | inl n ↦ let (found, there, t) = endpoint_args-untyped eps n in (found, Memᴰ.tail there, t)
      | inr (args, d, k) ↦ cc
    ]
  ]

  untyped-endpoint_args :
      (ep : Endpoint) (eps : List Endpoint)
      → Memᴰ ep eps
      → ep.endpoint_type ≡ none
      → endpoint_args decimal eps ≡ none
  unfolding endpoint_args endpoint_arg
  untyped-endpoint_args ep [] m h = absurd (Memᴰ.not-nil m)
  untyped-endpoint_args ep (x ∷ eps) m h = elim (Memᴰ.cases_cons m) [
    | inl e ↦
        let t : x.endpoint_type ≡ none = ap (λ (y : Endpoint). y.endpoint_type) (sym e) ∙ h in
        rw t refl
    | inr later ↦
        let rest = untyped-endpoint_args ep eps later h in
        elim (Option-cases (endpoint_arg decimal x)) [
          | inl e ↦ rw e refl
          | inr (arg, e) ↦ rw (e, rest) refl
        ]
  ]

  module _ {Value : Type 0} where
    query_args-endpoint_args :
        (opts : QueryOptions Value)
        → (query_args decimal opts ≡ none) ↔ (endpoint_args decimal opts.endpoints ≡ none)
    unfolding query_args
    query_args-endpoint_args opts = (
      (λ h. elim (bind-none (endpoint_args decimal opts.endpoints) _ h) [
        | inl n ↦ n
        | inr (args, e, k) ↦ cc
      ]),
      (λ h. rw h refl),
    )

    -- For the endpoints that were found for the listed Services the command line of the querier is built,
    -- unless a listed Service is not a gRPC service: exactly then the code panics.
    pub query_args-panics :
        (opts : QueryOptions Value) (svcs : List Service)
        → opts.endpoints ≡ store_endpoints svcs
        → (query_args decimal opts ≡ none) ↔ (svc : Service) × Memᴰ svc svcs × (port_of svc ≡ none)
    unfolding store_endpoint endpoint_at_port
    query_args-panics opts svcs e = (
      (λ h.
          let (ep, there, t) =
            endpoint_args-untyped (store_endpoints svcs)
              (ap (endpoint_args decimal) (sym e) ∙ (query_args-endpoint_args opts).0 h) in
          let (svc, listed, same) = mem-map ep svcs (mem-perm (store_endpoints-perm svcs) there) in
          (
            svc,
            listed,
            endpoint_at_port-untyped svc (port_of svc)
                (ap (λ (x : Endpoint). x.endpoint_type) (sym same) ∙ t),
          )),
      (λ (svc, listed, portless). (query_args-endpoint_args opts).1 (
          ap (endpoint_args decimal) e
          ∙ (untyped-endpoint_args (store_endpoint svc) (store_endpoints svcs)
              (mem-perm (Permᴰ.symm (store_endpoints-perm svcs)) (Memᴰ.map store_endpoint listed))
              (ap (λ p. (endpoint_at_port svc p).endpoint_type) portless)))),
    )
