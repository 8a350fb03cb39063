-- ===== src/Controllers/Query/Watching.antt =====
-- `enqueueForService` and `isQueueableStoreService` of thanosquery_controller.go.
use mathlib.Core.List.{Memᴰ}
use thanos_operator.Common.{
  String, Bool, true, false, List, [], Option, none, some, Labels, ◌≡◌, ◌↔◌,
}
use thanos_operator.Manifests.Labels.{build_label_selector_from, selector}
use thanos_operator.Manifests.Services.{Candidate, is_grpc_service_with_labels}
use thanos_operator.Controllers.Enqueue.{
  Request, Enqueued, requests, select_request, enqueue, enqueue_each-AsksFor,
}
use thanos_operator.Controllers.Reconciling.{Resource}
use thanos_operator.Controllers.Query.{QuerySpec, Discovery}
use thanos_operator.Controllers.Selectors.{required_store_service_label}

unfoldable pub is_queueable_store_service : Candidate → Bool
unfolding required_store_service_label
is_queueable_store_service obj =
    elim (is_grpc_service_with_labels obj required_store_service_label) [
      | none ↦ false
      | some port ↦ true
    ]

module _ {S Expression : Type 0} (discovery : Discovery S Expression) where
  unfoldable pub query_turn : Labels → Resource (QuerySpec Expression) → Enqueued
  unfolding select_request build_label_selector_from required_store_service_label
  query_turn labels query =
      select_request
        (build_label_selector_from discovery.as_selector query.spec.store_label_selector
          required_store_service_label)
        (λ sel. discovery.matches sel labels) query

  -- `enqueueForService`, over the call that lists the queries of a namespace, for an object of the
  -- namespace.
  unfoldable pub enqueue_for_service :
      (String → Option (List (Resource (QuerySpec Expression)))) → String → Candidate → Enqueued
  unfolding enqueue query_turn is_queueable_store_service
  enqueue_for_service list_queries namespace obj =
      enqueue (is_queueable_store_service obj) (list_queries namespace) (query_turn obj.labels)

  -- The list call answers, for each namespace with the queries that are in it, of all that there are.
  abbrev pub ListsTheNamespace :
      List (Resource (QuerySpec Expression))
      → (String → Option (List (Resource (QuerySpec Expression))))
      → Type 0
  ListsTheNamespace queries list_queries =
      (ns : String)
      → (found : List (Resource (QuerySpec Expression))) × (list_queries ns ≡ some found)
        × ((query : Resource (QuerySpec Expression))
            → Memᴰ query found ↔ (Memᴰ query queries × (query.object.namespace ≡ ns)))

  -- The query is in the namespace of the Service, and its selector, with the required labels of a store,
  -- finds the labels of the Service.
  abbrev pub Concerns : String → Candidate → Resource (QuerySpec Expression) → Type 0
  Concerns namespace obj query =
      (query.object.namespace ≡ namespace)
      × ((sel : discovery.Selector) × (build_label_selector_from discovery.as_selector
              query.spec.store_label_selector required_store_service_label
            ≡ selector sel)
          × (discovery.matches sel obj.labels ≡ true))

  -- Where the list call answers with the queries of the namespace that it is asked for, and no selector
  -- panics: when a Service changes that is a StoreAPI with a gRPC port, exactly those queries of the
  -- Service's namespace are reconciled whose selector finds the labels of the Service; for another object
  -- none is.
  pub enqueue_for_service-AsksFor :
      (queries : List (Resource (QuerySpec Expression)))
      (list_queries : String → Option (List (Resource (QuerySpec Expression)))) (namespace : String)
      (obj : Candidate) (rs : List Request)
      → ListsTheNamespace queries list_queries
      → enqueue_for_service list_queries namespace obj ≡ requests rs
      → ((is_queueable_store_service obj ≡ true)
          → (q : Request)
          → Memᴰ q rs
            ↔ (query : Resource (QuerySpec Expression)) × Memᴰ query queries
              × Concerns namespace obj query
              × (q ≡ (query.object.namespace, query.object.name)))
        × ((is_queueable_store_service obj ≡ false) → rs ≡ [])
  unfolding enqueue_for_service enqueue query_turn
  enqueue_for_service-AsksFor queries list_queries namespace obj rs lists h =
      let (found, answered, there) = lists namespace in
      (
        (λ e q.
            let asked =
              enqueue_each-AsksFor
                (λ (query : Resource (QuerySpec Expression)).
                  build_label_selector_from discovery.as_selector query.spec.store_label_selector
                    required_store_service_label)
                (λ sel. discovery.matches sel obj.labels) found rs (rw (answered, e, enqueue) at h)
                q in
            (
              (λ m.
                  let (query, listed, chosen, same) = asked.0 m in
                  let (known, placed) = (there query).0 listed in
                  (query, known, (placed, chosen), same)),
              (λ (query, known, (placed, chosen), same).
                  asked.1 (query, (there query).1 (known, placed), chosen, same)),
            )),
        (λ e. let nothing : requests [] ≡ requests rs = rw (answered, e, enqueue) at h in cc),
      )
