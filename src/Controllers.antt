-- ===== src/Controllers.antt =====
-- internal/controller: what the five controllers of the custom resources share. The API server is the
-- one of the pruners and of `CreateOrUpdate`, so that a sync is one sequence of calls on its state.
pub mod Selectors
pub mod Reconciling
pub mod Cleaning
pub mod Enqueue
pub mod Store
pub mod Compact
pub mod Query
pub mod Receive
pub mod Sample
mod Tests
use thanos_operator.Common.{
  ℕ, zero, suc, ◌+◌, String, List, [], ◌∷◌, map, Labels, ltb, if◌then◌else◌,
}
use thanos_operator.FeatureGate.{Config, service_monitor_enabled}
use thanos_operator.Manifests.Names.{Naming}
use thanos_operator.Controllers.Selectors.{label_selector_for_owner}
use thanos_operator.Handlers.{
  Object, Client, Run, prune, prune_by_owner, new_resource_pruner, with_service_monitor,
  with_pod_disruption_budget,
}
use thanos_operator.Handlers.Applying.{Applier, Named, Applying, create_or_update}

-- A `manifests.Buildable`: the name of what it builds, and the objects.
pub record Buildable (Value : Type 0) : Type 0 where
  pub generated_resource_name : String
  pub build : List (Named Value)

-- What a sync returns: the state of the server, and its error if there is one.
pub data SyncError : Type 0 where
  not_built : String → SyncError
  not_applied : ℕ → SyncError
  not_cleaned : ℕ → SyncError

pub data Synced (S : Type 0) : Type 0 where
  synced : S → Synced S
  sync_failed : S → SyncError → Synced S
  -- A nil pointer is followed.
  sync_panics : S → Synced S

-- `if errCount > 0 { return … }`, before the rest of a sync.
unfoldable pub unless_errors : {S : Type 0} → ℕ → (ℕ → SyncError) → S → (S → Synced S) → Synced S
unless_errors zero error s next = next s
unless_errors (suc n) error s next = sync_failed s (error (suc n))

module _ (client : Client) where
  -- `errCount += f(…)`
  unfoldable pub also : Run client → (client.State → Run client) → Run client
  also run f =
      let next : Run client = f run.state in
      record { state = next.state; err_count = run.err_count + next.err_count }

abbrev pub names_of : {Value : Type 0} → List (Buildable Value) → List String
names_of opts = map (λ opt. opt.generated_resource_name) opts

module _ {State Value : Type 0} (applier : Applier State Value) where
  -- The loop that applies the objects of one component after another.
  unfoldable pub apply_each :
      String → Object → List (Buildable Value) → Applying applier → Applying applier
  apply_each namespace owner [] run = run
  apply_each namespace owner (opt ∷ opts) run =
      apply_each namespace owner opts (create_or_update applier namespace owner opt.build run)

  abbrev pub no_errors : State → Applying applier
  no_errors s = record { state = s; err_count = 0 }

-- What every controller is built with.
pub record Operator (Value : Type 0) : Type 1 where
  pub client : Client
  pub applier : Applier client.State Value
  pub naming : Naming
  pub features : Config

module _ {Value : Type 0} (operator : Operator Value) where
  -- What a cleanup does for a resource of which the given selector labels belong to the bare owner: prune
  -- what is not expected, the service monitors if their feature is off, and the disruption budgets if
  -- there are fewer than two replicas.
  abbrev pub owner_options : String → Labels → List (operator.client.ListOption)
  owner_options namespace selector_labels =
      operator.client.matching_labels (label_selector_for_owner selector_labels)
      ∷ operator.client.in_namespace namespace
      ∷ []

  unfoldable pub prune_service_monitors : Object → operator.client.State → Run operator.client
  prune_service_monitors owner s =
      let pruned =
        prune_by_owner operator.client (with_service_monitor new_resource_pruner) owner s in
      if service_monitor_enabled operator.features
      then record { state = s; err_count = 0 }
      else pruned

  unfoldable pub prune_disruption_budgets :
      ℕ → List operator.client.ListOption → operator.client.State → Run operator.client
  prune_disruption_budgets replicas opts s =
      let pruned =
        prune operator.client (with_pod_disruption_budget new_resource_pruner) [] opts s in
      if ltb replicas 2 then pruned else record { state = s; err_count = 0 }
