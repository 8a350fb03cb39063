-- ===== src/Controllers/Query/Cleaning.antt =====
-- What the cleanup of a query leaves behind.
use mathlib.Core.List.{Memᴰ}
use thanos_operator.Common.{
  String, true, List, none, some, ◌≡◌, ◌≢◌, ◌⊎◌, refl, sym, ◌∙◌, inl, inr, Labels, lookup, insert,
  All, All-mem,
}
use thanos_operator.Common.Opt.{some-eq}
use thanos_operator.Handlers.{
  Kind, service_monitor, Object, ResourcePruner, Run, new_resource_pruner, with_service_account,
  with_service, with_deployment, with_pod_disruption_budget, with_service_monitor,
}
use thanos_operator.Handlers.Frame.{is_enabled}
use thanos_operator.Handlers.Exact.{IsFaithful}
use thanos_operator.Controllers.{
  Operator, owner_options, also, prune_service_monitors, prune_disruption_budgets,
}
use thanos_operator.Controllers.Cleaning.{
  Deletes, IsOrphan, IsGated, IsSingle, prune-Deletes, prune_service_monitors-Deletes,
  prune_disruption_budgets-Deletes, also-Deletes,
}
use thanos_operator.Controllers.Reconciling.{Resource}
use thanos_operator.Controllers.Selectors.{
  component_label, label_selector_for_owner, query_selector_labels, with_instance_and_owner,
  query_required_labels,
}
use thanos_operator.Controllers.Query.{QuerySpec, Discovery}
use thanos_operator.Controllers.Query.Syncing.{
  QueryBuilder, prune_orphaned_resources, prune_frontend_budgets, cleanup,
}

abbrev query_pruner : ResourcePruner
query_pruner = with_service_monitor (
    with_pod_disruption_budget
      (with_deployment (with_service (with_service_account new_resource_pruner))))

only_service_monitor :
    (k : Kind)
    → is_enabled (with_service_monitor new_resource_pruner) k ≡ true
    → k ≡ service_monitor
unfolding is_enabled
only_service_monitor service_monitor h = refl
only_service_monitor k h = cc

module _ {Value Expression : Type 0} (operator : Operator Value)
    (faithful : IsFaithful operator.client) (builder : QueryBuilder Value Expression)
    (discovery : Discovery operator.client.State Expression) where
  abbrev own : Resource (QuerySpec Expression) → List operator.client.ListOption
  own query =
      owner_options operator query.object.namespace
        (query_selector_labels operator.naming query.object.name)

  abbrev first :
      Resource (QuerySpec Expression) → List String → operator.client.State → Run operator.client
  first query expected s =
      also operator.client
        (also operator.client
          (prune_orphaned_resources operator builder discovery query.object.namespace
            query.object.name expected s)
          (prune_service_monitors operator query.object))
        (prune_disruption_budgets operator query.spec.replicas (own query))

  first-Deletes :
      (query : Resource (QuerySpec Expression)) (expected : List String) (s : operator.client.State)
      → query.object.uid ≢ ""
      → Deletes operator.client faithful
          (λ x.
            (IsOrphan operator.client faithful query_pruner expected (own query) x
              ⊎ IsGated operator faithful query.object x)
            ⊎ IsSingle operator faithful query.spec.replicas (own query) x)
          s
          (first query expected s)
  unfolding prune_orphaned_resources
  first-Deletes query expected s given =
      let orphans : Run operator.client =
        prune_orphaned_resources operator builder discovery query.object.namespace query.object.name
          expected s in
      let gated : Run operator.client =
        also operator.client orphans (prune_service_monitors operator query.object) in
      also-Deletes operator.client faithful _ _ s gated
        (prune_disruption_budgets operator query.spec.replicas (own query))
        (also-Deletes operator.client faithful _ _ s orphans
          (prune_service_monitors operator query.object)
          (prune-Deletes operator.client faithful query_pruner expected (own query) s)
          (prune_service_monitors-Deletes operator faithful query.object orphans.state given))
        (prune_disruption_budgets-Deletes operator faithful query.spec.replicas (own query)
          gated.state)

  -- A server that honours the labels of a list call.
  abbrev pub HonoursLabels : Type 0
  HonoursLabels =
      (labels : Labels) (opts : List operator.client.ListOption) (x : Object)
      → Memᴰ (operator.client.matching_labels labels) opts
      → faithful.selects opts x ≡ true
      → All (λ (l : String × String). lookup l.0 x.labels ≡ some l.1) labels

  owner_component :
      (owner : String)
      → Memᴰ
          (component_label, "query-layer")
          (label_selector_for_owner (query_selector_labels operator.naming owner))
  unfolding label_selector_for_owner query_selector_labels query_required_labels
      with_instance_and_owner insert
  owner_component owner = Memᴰ.tail (Memᴰ.head refl)

  -- What carries the component label of another component is not found by the selector of the query.
  other_component :
      HonoursLabels
      → (query : Resource (QuerySpec Expression)) (x : Object)
      → lookup component_label x.labels ≡ some "query-frontend"
      → faithful.selects (own query) x ≢ true
  other_component honours query x h chosen =
      let carried : lookup component_label x.labels ≡ some "query-layer" =
        All-mem (λ (l : String × String). lookup l.0 x.labels ≡ some l.1)
          (label_selector_for_owner (query_selector_labels operator.naming query.object.name))
          (honours
            (label_selector_for_owner (query_selector_labels operator.naming query.object.name))
            (own query) x (Memᴰ.head refl) chosen)
          (owner_component query.object.name) in
      let same : some "query-layer" ≡ some "query-frontend" = sym carried ∙ h in
      let texts : "query-layer" ≡ "query-frontend" = some-eq same in cc texts

  -- Nothing that the query frontend of a query is made of is deleted when the frontend is taken out of
  -- the resource, except service monitors: against a server that answers and that honours the labels
  -- of a list call, the cleanup of a query without a frontend keeps every other object that carries the
  -- component label of a frontend, whatever names are expected.
  pub cleanup-keeps_frontend :
      HonoursLabels
      → (query : Resource (QuerySpec Expression)) (expected : List String)
        (s : operator.client.State) (x : Object)
      → query.object.uid ≢ ""
      → query.spec.query_frontend ≡ none
      → Memᴰ x (faithful.objects s)
      → lookup component_label x.labels ≡ some "query-frontend"
      → x.kind ≢ service_monitor
      → Memᴰ x (faithful.objects (cleanup operator builder discovery query expected s).state)
  unfolding cleanup prune_frontend_budgets also
  cleanup-keeps_frontend honours query expected s x given without held labelled kind =
      let (which, no_error) = first-Deletes query expected s given in
      rw (cleanup, without, prune_frontend_budgets)
        ((which x).1 (
          held,
          λ doomed. elim doomed [
            | inl before ↦ elim before [
              | inl orphan ↦ other_component honours query x labelled orphan.1
              | inr gated ↦ kind (only_service_monitor x.kind gated.1.2)
            ]
            | inr single ↦ other_component honours query x labelled single.1.1
          ],
        ))
