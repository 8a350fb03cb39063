-- ===== src/Ruler/Syncing.antt =====
-- `syncResources`, `cleanup` and `Reconcile` of thanosruler_controller.go.
use thanos_operator.Common.{String, Bool, true, false, List, [], ◌∷◌}
use thanos_operator.Controllers.{
  Operator, Synced, synced, sync_failed, sync_panics, not_built, not_applied, not_cleaned,
  unless_errors, also, no_errors, owner_options, prune_service_monitors, prune_disruption_budgets,
}
use thanos_operator.Controllers.Reconciling.{Cluster, Reconciled, reconcile}
use thanos_operator.Controllers.Selectors.{
  ruler_selector_labels, ruler_resource_name, label_selector_for_owner,
}
use thanos_operator.Handlers.{
  Run, prune, new_resource_pruner, with_service_account, with_service, with_stateful_set,
  with_pod_disruption_budget, with_service_monitor, with_config_map, with_secret,
}
use thanos_operator.Handlers.Applying.{Applying, create_or_update}
use thanos_operator.Ruler.Building.{
  BuiltRuler, options, nothing_built, RulerSetup, Ruler, build_ruler,
}
use thanos_operator.Ruler.Creating.{
  prom_rule_derived_config_map_label, user_config_map_source_label,
}
use thanos_operator.Ruler.Discovery.{RulerSpec}
use thanos_operator.Ruler.Gathering.{Attempt, success, failure, panicking}

module _ {Value : Type 0} (operator : Operator Value)
    (setup : RulerSetup Value operator.client.State) where
  abbrev pub R : Type 0
  R = Ruler operator setup

  abbrev pub St : Type 0
  St = operator.client.State

  abbrev pub own : String → String → List operator.client.ListOption
  own ns owner = owner_options operator ns (ruler_selector_labels operator.naming owner)

  unfoldable pub prune_orphaned_resources : String → String → List String → St → Run operator.client
  unfolding ruler_selector_labels
  prune_orphaned_resources ns owner expected_resources s =
      prune operator.client
        (with_service_monitor (
          with_pod_disruption_budget
            (with_stateful_set (with_service (with_service_account new_resource_pruner)))))
        expected_resources (own ns owner) s

  -- The options of a list call: the namespace, and one label; the owner is not among them.
  abbrev pub labelled : String → String → List operator.client.ListOption
  labelled ns label =
      operator.client.in_namespace ns ∷ operator.client.matching_labels ((label, "true") ∷ []) ∷ []

  unfoldable pub prune_orphaned_derived_config_maps :
      String → List String → St → Run operator.client
  unfolding also
  prune_orphaned_derived_config_maps ns expected_derived_config_maps s =
      also operator.client
        (prune operator.client (with_config_map new_resource_pruner) expected_derived_config_maps
          (labelled ns prom_rule_derived_config_map_label) s)
        (prune operator.client (with_config_map new_resource_pruner) expected_derived_config_maps
          (labelled ns user_config_map_source_label))

  unfoldable pub prune_generated_remote_write_secret : String → String → St → Run operator.client
  unfolding ruler_selector_labels label_selector_for_owner
  prune_generated_remote_write_secret ns owner s =
      prune operator.client (with_secret new_resource_pruner) []
        (operator.client.matching_labels
            (label_selector_for_owner (ruler_selector_labels operator.naming owner))
          ∷ operator.client.in_namespace ns
          ∷ operator.client.matching_labels
              (("operator.thanos.io/generated-remote-write-secret", "true") ∷ [])
          ∷ [])
        s

  unfoldable pub prune_secret_if : Bool → String → String → St → Run operator.client
  unfolding prune_generated_remote_write_secret
  prune_secret_if true ns owner s = prune_generated_remote_write_secret ns owner s
  prune_secret_if false ns owner s = record { state = s; err_count = 0 }

  unfoldable pub cleanup : R → List String → List String → St → Run operator.client
  unfolding prune_orphaned_resources also prune_service_monitors prune_disruption_budgets
      prune_orphaned_derived_config_maps prune_secret_if
  cleanup ruler expected_resources expected_derived_config_maps s =
      also operator.client
        (also operator.client
          (also operator.client
            (also operator.client
              (prune_orphaned_resources ruler.object.namespace ruler.object.name expected_resources
                s)
              (prune_service_monitors operator ruler.object))
            (prune_disruption_budgets operator ruler.spec.replicas
              (own ruler.object.namespace ruler.object.name)))
          (prune_orphaned_derived_config_maps ruler.object.namespace expected_derived_config_maps))
        (prune_secret_if ruler.spec.is_stateful ruler.object.namespace ruler.object.name)

  -- Nothing built and no error: the methods of a nil interface are called.
  unfoldable pub sync_built : R → Attempt St (BuiltRuler setup.Common) → Synced St
  unfolding cleanup
  sync_built ruler (failure s e) = sync_failed s (not_built e)
  sync_built ruler (panicking s) = sync_panics s
  sync_built ruler (success s nothing_built) = sync_panics s
  sync_built ruler (success s (options opts expected)) =
      let created : Applying operator.applier =
        create_or_update operator.applier ruler.object.namespace ruler.object (setup.build opts)
          (no_errors operator.applier s) in
      unless_errors created.err_count not_applied created.state λ s'.
        let cleaned : Run operator.client =
          cleanup ruler (ruler_resource_name operator.naming opts.owner ∷ []) expected s' in
        unless_errors cleaned.err_count not_cleaned cleaned.state synced

  unfoldable pub sync_resources : R → St → Synced St
  unfolding sync_built build_ruler
  sync_resources ruler s = sync_built ruler (build_ruler operator setup ruler s)

  unfoldable pub reconcile_ruler :
      Cluster St (RulerSpec setup.Expression) → Bool → St → Reconciled St
  unfolding sync_resources
  reconcile_ruler cluster disable s = reconcile cluster disable sync_resources s
