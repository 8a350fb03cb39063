-- ===== src/Controllers/Store/Cleaning.antt =====
-- What the cleanup of a store deletes.
use thanos_operator.Common.{String, List, none, ◌≢◌, ◌⊎◌}
use thanos_operator.Handlers.{
  ResourcePruner, Run, new_resource_pruner, with_service_account, with_service, with_stateful_set,
  with_pod_disruption_budget, with_service_monitor,
}
use thanos_operator.Handlers.Applying.{Named}
use thanos_operator.Handlers.Exact.{IsFaithful}
use thanos_operator.Controllers.{
  Operator, owner_options, also, prune_service_monitors, prune_disruption_budgets,
}
use thanos_operator.Controllers.Cleaning.{
  Deletes, IsOrphan, IsGated, IsSingle, prune-Deletes, prune_service_monitors-Deletes,
  prune_disruption_budgets-Deletes, also-Deletes,
}
use thanos_operator.Controllers.Reconciling.{Resource}
use thanos_operator.Controllers.Selectors.{store_selector_labels}
use thanos_operator.Controllers.Store.{StoreSpec, StoreOptions, prune_orphaned_resources, cleanup}

-- The kinds that the controller prunes.
abbrev pub store_pruner : ResourcePruner
store_pruner = with_service_monitor (
    with_pod_disruption_budget
      (with_stateful_set (with_service (with_service_account new_resource_pruner))))

module _ {Value Common : Type 0} (operator : Operator Value) (faithful : IsFaithful operator.client)
    (common_to_opts : Resource StoreSpec → Common)
    (build : StoreOptions Common → List (Named Value)) where
  abbrev pub own : Resource StoreSpec → List operator.client.ListOption
  own store =
      owner_options operator store.object.namespace
        (store_selector_labels operator.naming store.object.name none)

  -- The cleanup of a store that has a uid, against a server that answers, counts no error, and deletes
  -- exactly the objects of the pruned kinds that the selector of the owner finds and that are not
  -- expected; the owner's service monitors if that feature is off; and the disruption budgets that the
  -- selector finds if there are fewer than two replicas.
  pub store_cleanup-Deletes :
      (store : Resource StoreSpec) (expect_shards : List String) (s : operator.client.State)
      → store.object.uid ≢ ""
      → Deletes operator.client faithful
          (λ x.
            (IsOrphan operator.client faithful store_pruner expect_shards (own store) x
              ⊎ IsGated operator faithful store.object x)
            ⊎ IsSingle operator faithful store.spec.replicas (own store) x)
          s
          (cleanup operator common_to_opts build store expect_shards s)
  unfolding cleanup prune_orphaned_resources
  store_cleanup-Deletes store expect_shards s given =
      let orphans : Run operator.client =
        prune_orphaned_resources operator common_to_opts build store.object.namespace
          store.object.name expect_shards s in
      let gated : Run operator.client =
        also operator.client orphans (prune_service_monitors operator store.object) in
      also-Deletes operator.client faithful _ _ s gated
        (prune_disruption_budgets operator store.spec.replicas (own store))
        (also-Deletes operator.client faithful _ _ s orphans
          (prune_service_monitors operator store.object)
          (prune-Deletes operator.client faithful store_pruner expect_shards (own store) s)
          (prune_service_monitors-Deletes operator faithful store.object orphans.state given))
        (prune_disruption_budgets-Deletes operator faithful store.spec.replicas (own store)
          gated.state)
