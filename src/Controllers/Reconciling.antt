-- ===== src/Controllers/Reconciling.antt =====
-- `Reconcile` and `updateCondition`, which the controllers of the store, the compactor, the query, the
-- ruler and the receiver each declare, over the sync of the controller. Events, logs and metrics are left
-- out; the library's `SetStatusCondition` and the calls that read a resource and write its status are
-- parameters.
pub mod Conditions
use thanos_operator.Common.{
  String, Bool, true, false, ◌==◌, List, [], ◌∷◌, Option, none, some, if◌then◌else◌,
}
use thanos_operator.Handlers.{Object, ApiError, not_found, no_match, other}
use thanos_operator.Controllers.{SyncError, Synced, synced, sync_failed, sync_panics}

pub record Condition : Type 0 where
  pub condition_type : String
  pub status : Bool
  pub reason : String

pub record Status : Type 0 where
  pub conditions : List Condition
  pub paused : Option Bool

-- A custom resource; `Spec` is the rest of what its controller reads.
pub record Resource (Spec : Type 0) : Type 0 where
  pub object : Object
  pub spec : Spec
  pub paused : Option Bool
  pub is_deleted : Bool
  pub status : Status

pub data Fetched (Spec : Type 0) : Type 0 where
  fetched : Resource Spec → Fetched Spec
  fetch_failed : ApiError → Fetched Spec

pub data Failure : Type 0 where
  get_error : ApiError → Failure
  sync_error : SyncError → Failure

pub data Reconciled (S : Type 0) : Type 0 where
  reconciled : S → Reconciled S
  failed : S → Failure → Reconciled S
  panics : S → Reconciled S

abbrev pub condition_ready : String
condition_ready = "Ready"

abbrev pub condition_paused : String
condition_paused = "Paused"

-- The calls of the library and of the API server.
pub record Cluster (S Spec : Type 0) : Type 0 where
  pub set_status_condition : List Condition → Condition → List Condition
  pub get : S → Fetched Spec
  -- The state after the write, which may have failed: its error is only logged.
  pub update_status : S → Resource Spec → S

-- `paused != nil && *paused`
abbrev pub is_paused : Option Bool → Bool
is_paused none = false
is_paused (some b) = b

module _ {S Spec : Type 0} (cluster : Cluster S Spec) where
  unfoldable pub with_condition : Resource Spec → Condition → Resource Spec
  with_condition resource condition = record resource {
    status = record {
      conditions = cluster.set_status_condition resource.status.conditions condition;
      paused =
          if condition.condition_type == condition_paused
          then some true
          else resource.status.paused;
    };
  }

  unfoldable pub update_condition : Bool → Resource Spec → Condition → S → S
  unfolding with_condition
  update_condition disable_condition_update resource condition s =
      if disable_condition_update
      then s
      else cluster.update_status s (with_condition resource condition)

  module _ (disable_condition_update : Bool) (sync : Resource Spec → S → Synced S) where
    unfoldable pub after_sync : Resource Spec → Synced S → Reconciled S
    unfolding update_condition
    after_sync resource (synced s) = reconciled (
        update_condition disable_condition_update resource
          (record { condition_type = condition_ready; status = true; reason = "ReconcileComplete" })
          s)
    after_sync resource (sync_failed s e) =
        failed
          (update_condition disable_condition_update resource
            (record { condition_type = condition_ready; status = false; reason = "ReconcileError" })
            s)
          (sync_error e)
    after_sync resource (sync_panics s) = panics s

    unfoldable pub reconcile_fetched : Fetched Spec → S → Reconciled S
    unfolding after_sync
    reconcile_fetched (fetch_failed not_found) s = reconciled s
    reconcile_fetched (fetch_failed no_match) s = failed s (get_error no_match)
    reconcile_fetched (fetch_failed (other e)) s = failed s (get_error (other e))
    reconcile_fetched (fetched resource) s =
        if is_paused resource.paused
        then reconciled (
            update_condition disable_condition_update resource
              (record { condition_type = condition_paused; status = true; reason = "Paused" }) s)
        else after_sync resource (sync resource s)

    -- `Reconcile` of the store, the compactor, the query and the ruler.
    unfoldable pub reconcile : S → Reconciled S
    unfolding reconcile_fetched
    reconcile s = reconcile_fetched (cluster.get s) s

  -- The receiver's sync, which is not reached for a resource that is being deleted: then nothing is
  -- written, and no condition either.
  unfoldable pub reconcile_receiver_fetched :
      Bool → (Resource Spec → S → Synced S) → Fetched Spec → S → Reconciled S
  unfolding reconcile_fetched
  reconcile_receiver_fetched disable sync (fetch_failed e) s =
      reconcile_fetched disable sync (fetch_failed e) s
  reconcile_receiver_fetched disable sync (fetched resource) s =
      if is_paused resource.paused
      then reconcile_fetched disable sync (fetched resource) s
      else if resource.is_deleted
      then reconciled s
      else after_sync disable sync resource (sync resource s)

  unfoldable pub reconcile_receiver : Bool → (Resource Spec → S → Synced S) → S → Reconciled S
  unfolding reconcile_receiver_fetched
  reconcile_receiver disable sync s = reconcile_receiver_fetched disable sync (cluster.get s) s
