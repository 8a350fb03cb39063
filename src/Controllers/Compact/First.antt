-- ===== src/Controllers/Compact/First.antt =====
-- The order of the calls of a compactor's sync.
use mathlib.Core.List.{Memᴰ}
use thanos_operator.Common.{List, none, ◌≡◌, ap, ◌↔◌}
use thanos_operator.Handlers.{
  Object, ResourcePruner, Run, new_resource_pruner, with_service_account, with_service,
  with_stateful_set, with_service_monitor,
}
use thanos_operator.Handlers.Applying.{Named}
use thanos_operator.Handlers.Exact.{IsFaithful}
use thanos_operator.Controllers.{Operator, owner_options, unless_errors, not_cleaned}
use thanos_operator.Controllers.Cleaning.{IsOrphan, prune-Deletes}
use thanos_operator.Controllers.Reconciling.{Resource}
use thanos_operator.Controllers.Selectors.{compact_selector_labels}
use thanos_operator.Controllers.Compact.{
  CompactSpec, CompactOptions, prune_orphaned_resources, expected, after_pruning, sync_resources,
}

abbrev compact_pruner : ResourcePruner
compact_pruner =
    with_service_monitor
      (with_stateful_set (with_service (with_service_account new_resource_pruner)))

module _ {Value Common : Type 0} (operator : Operator Value) (faithful : IsFaithful operator.client)
    (common_to_opts : Resource CompactSpec → Common)
    (build : CompactOptions Common → List (Named Value)) where
  -- An object of a pruned kind that the owner's selector finds and that is not expected.
  abbrev pub IsLeftOver : Resource CompactSpec → Object → Type 0
  IsLeftOver compact x =
      IsOrphan operator.client faithful compact_pruner
        (expected operator common_to_opts build compact)
        (owner_options operator compact.object.namespace
          (compact_selector_labels operator.naming compact.object.name none))
        x

  -- Against a server that answers, the sync of a compactor does all that creates, updates or otherwise
  -- deletes objects from a state in which nothing is left over: from the state that it was given, less
  -- the objects of the pruned kinds that the owner's selector finds and that are not expected.
  pub sync_resources-prunes_first :
      (compact : Resource CompactSpec) (s : operator.client.State)
      → (s' : operator.client.State) × (sync_resources operator common_to_opts build compact s
          ≡ after_pruning operator common_to_opts build compact s')
        × ((x : Object) → Memᴰ x (faithful.objects s') → ¬ IsLeftOver compact x)
        × ((x : Object)
            → Memᴰ x (faithful.objects s') ↔ (Memᴰ x (faithful.objects s) × ¬ IsLeftOver compact x))
  unfolding sync_resources prune_orphaned_resources unless_errors
  sync_resources-prunes_first compact s =
      let pruned : Run operator.client =
        prune_orphaned_resources operator common_to_opts build compact.object.namespace
          compact.object.name (expected operator common_to_opts build compact) s in
      let (which, no_error) =
        prune-Deletes operator.client faithful compact_pruner
          (expected operator common_to_opts build compact)
          (owner_options operator compact.object.namespace
            (compact_selector_labels operator.naming compact.object.name none))
          s in
      (
        pruned.state,
        ap
            (λ n.
              unless_errors n not_cleaned pruned.state
                (after_pruning operator common_to_opts build compact))
            no_error,
        (λ x m. ((which x).0 m).1),
        which,
      )
