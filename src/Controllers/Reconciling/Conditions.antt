-- ===== src/Controllers/Reconciling/Conditions.antt =====
-- The conditions of a resource over its reconciliations.
use thanos_operator.Common.{
  String, Bool, true, false, ◌==◌, List, [], ◌∷◌, Option, none, some, if◌then◌else◌, ◌≡◌, ◌≢◌, ◌⊎◌,
  refl, sym, ◌∙◌, ap, inl, inr, Bool-cases,
}
use mathlib.Core.Path.{subst}
use thanos_operator.Handlers.{not_found, no_match, other}
use thanos_operator.Controllers.{Synced, synced, sync_failed, sync_panics}
use thanos_operator.Controllers.Reconciling.{
  Condition, Status, Resource, Fetched, fetched, fetch_failed, Reconciled, reconciled, failed,
  panics, Cluster, condition_ready, condition_paused, with_condition, update_condition, after_sync,
  is_paused, reconcile_fetched, reconcile,
}

abbrev pub synced_state : {S : Type 0} → Synced S → S
synced_state (synced s) = s
synced_state (sync_failed s e) = s
synced_state (sync_panics s) = s

abbrev pub state_after : {S : Type 0} → Reconciled S → S
state_after (reconciled s) = s
state_after (failed s e) = s
state_after (panics s) = s

module _ {S Spec : Type 0} (cluster : Cluster S Spec) where
  -- Whoever is stored has status.paused set.
  abbrev pub IsMarked : S → Type 0
  IsMarked s = (r : Resource Spec) → cluster.get s ≡ fetched r → r.status.paused ≡ some true

  -- A write of the status is stored, or it fails and leaves what is stored.
  abbrev pub WritesStatus : Type 0
  WritesStatus =
      (s : S) (r : Resource Spec)
      → (cluster.get (cluster.update_status s r) ≡ fetched r)
        ⊎ (cluster.get (cluster.update_status s r) ≡ cluster.get s)

  -- What comes after stores no resource, or one with the status of the stored one.
  abbrev pub KeepsStatus : S → S → Type 0
  KeepsStatus s s' =
      (r' : Resource Spec)
      → cluster.get s' ≡ fetched r'
      → (r : Resource Spec) × (cluster.get s ≡ fetched r) × (r.status ≡ r'.status)

  KeepsStatus-IsMarked : (s s' : S) → KeepsStatus s s' → IsMarked s → IsMarked s'
  KeepsStatus-IsMarked s s' kept marked r' h =
      let (r, e, same) = kept r' h in ap (λ (st : Status). st.paused) (sym same) ∙ marked r e

  module _ (disable : Bool) (sync : Resource Spec → S → Synced S) where
    -- One step: a reconciliation, or a change by others that leaves the status.
    pub data Step : S → S → Type 0 where
      reconciles : (s : S) → Step s (state_after (reconcile cluster disable sync s))
      changes : (s s' : S) → KeepsStatus s s' → Step s s'

    pub data Steps : S → S → Type 0 where
      stop : (s : S) → Steps s s
      step : {s t u : S} → Step s t → Steps t u → Steps s u

  with_condition-paused :
      (r : Resource Spec) (c : Condition)
      → r.status.paused ≡ some true
      → (with_condition cluster r c).status.paused ≡ some true
  unfolding with_condition
  with_condition-paused r c h = elim (Bool-cases (c.condition_type == condition_paused)) [
    | inl e ↦ rw e refl
    | inr e ↦ rw e h
  ]

  update_condition-IsMarked :
      WritesStatus
      → (disable : Bool) (r : Resource Spec) (c : Condition) (s : S) → r.status.paused ≡ some true
      → IsMarked s
      → IsMarked (update_condition cluster disable r c s)
  unfolding update_condition
  update_condition-IsMarked writes true r c s h marked = marked
  update_condition-IsMarked writes false r c s h marked = λ r' found.
      elim (writes s (with_condition cluster r c)) [
        | inl e ↦
            let same : with_condition cluster r c ≡ r' = cc (sym e ∙ found) in
            subst (λ (x : Resource Spec). x.status.paused ≡ some true) same
              (with_condition-paused r c h)
        | inr e ↦ marked r' (sym e ∙ found)
      ]

  after_sync-IsMarked :
      WritesStatus
      → (disable : Bool) (sync : Resource Spec → S → Synced S) (r : Resource Spec)
        (result : Synced S)
      → r.status.paused ≡ some true
      → IsMarked (synced_state result)
      → IsMarked (state_after (after_sync cluster disable sync r result))
  unfolding after_sync
  after_sync-IsMarked writes disable sync r (synced s) h marked =
      update_condition-IsMarked writes disable r _ s h marked
  after_sync-IsMarked writes disable sync r (sync_failed s e) h marked =
      update_condition-IsMarked writes disable r _ s h marked
  after_sync-IsMarked writes disable sync r (sync_panics s) h marked = marked

  module _ (writes : WritesStatus) (disable : Bool) (sync : Resource Spec → S → Synced S)
      (syncs : (r : Resource Spec) (s : S) → KeepsStatus s (synced_state (sync r s))) where
    reconcile_fetched-IsMarked :
        (found : Fetched Spec) (s : S)
        → cluster.get s ≡ found
        → IsMarked s
        → IsMarked (state_after (reconcile_fetched cluster disable sync found s))
    unfolding reconcile_fetched
    reconcile_fetched-IsMarked (fetch_failed not_found) s e marked = marked
    reconcile_fetched-IsMarked (fetch_failed no_match) s e marked = marked
    reconcile_fetched-IsMarked (fetch_failed (other _)) s e marked = marked
    reconcile_fetched-IsMarked (fetched r) s e marked = elim (Bool-cases (is_paused r.paused)) [
      | inl p ↦
          rw (p, reconcile_fetched)
            (update_condition-IsMarked writes disable r _ s (marked r e) marked)
      | inr p ↦
          rw (p, reconcile_fetched)
            (after_sync-IsMarked writes disable sync r (sync r s) (marked r e)
              (KeepsStatus-IsMarked s (synced_state (sync r s)) (syncs r s) marked))
    ]

    -- Once the status of a resource says that it is paused, no sequence of reconciliations and of changes
    -- by others that leave the status makes it say anything else, whatever is done to the field by which
    -- users pause and resume the resource; where a write of the status is stored or fails without effect,
    -- and the sync leaves the status.
    pub reconcile-IsMarked : {s t : S} → Steps disable sync s t → IsMarked s → IsMarked t
    unfolding reconcile
    reconcile-IsMarked (stop s) marked = marked
    reconcile-IsMarked (step (reconciles s) rest) marked =
        reconcile-IsMarked rest (reconcile_fetched-IsMarked (cluster.get s) s refl marked)
    reconcile-IsMarked (step (changes s s' kept) rest) marked =
        reconcile-IsMarked rest (KeepsStatus-IsMarked s s' kept marked)

-- `meta.FindStatusCondition`, in the sense of its documentation: the first condition of the type.
unfoldable pub find_condition : String → List Condition → Option Condition
find_condition condition_type [] = none
find_condition condition_type (c ∷ conditions) =
    if c.condition_type == condition_type then some c else find_condition condition_type conditions

module _ {S Spec : Type 0} (cluster : Cluster S Spec) where
  -- A condition that is set is found.
  abbrev pub SetsCondition : Type 0
  SetsCondition =
      (conditions : List Condition) (c : Condition)
      → find_condition c.condition_type (cluster.set_status_condition conditions c) ≡ some c

  -- The stored resource has the condition "Ready", with the given status.
  abbrev pub HasReady : S → Bool → Type 0
  HasReady s ready =
      (r : Resource Spec) × (cluster.get s ≡ fetched r)
      × (c : Condition) × (find_condition condition_ready r.status.conditions ≡ some c)
      × (c.status ≡ ready)

  -- Whether an error is returned.
  abbrev pub is_reconciled : Reconciled S → Bool
  is_reconciled (reconciled s) = true
  is_reconciled (failed s e) = false
  is_reconciled (panics s) = false

  module _ (sets : SetsCondition)
      (stores : (s : S) (r : Resource Spec)
        → cluster.get (cluster.update_status s r) ≡ fetched r) where
    update_condition-HasReady :
        (r : Resource Spec) (ready : Bool) (reason : String) (s : S)
        → HasReady
            (update_condition cluster false r
              (record { condition_type = condition_ready; status = ready; reason = reason })
              s)
            ready
    unfolding update_condition with_condition
    update_condition-HasReady r ready reason s =
        let c : Condition = record {
          condition_type = condition_ready;
          status = ready;
          reason = reason;
        } in
        (
          with_condition cluster r c,
          stores s (with_condition cluster r c),
          c,
          sets r.status.conditions c,
          refl,
        )

    after_sync-HasReady :
        (sync : Resource Spec → S → Synced S) (r : Resource Spec) (result : Synced S)
        → ((s : S) → result ≢ sync_panics s)
        → HasReady
            (state_after (after_sync cluster false sync r result))
            (is_reconciled (after_sync cluster false sync r result))
    unfolding after_sync
    after_sync-HasReady sync r (synced s) never =
        update_condition-HasReady r true "ReconcileComplete" s
    after_sync-HasReady sync r (sync_failed s e) never =
        update_condition-HasReady r false "ReconcileError" s
    after_sync-HasReady sync r (sync_panics s) never = absurd (never s refl)

    -- A reconciliation of a resource that is not paused, whose sync returns, leaves the condition
    -- "Ready" on the stored resource, and it is true exactly if the reconciliation returns no error; where
    -- the library sets the condition it is given, and the write of the status succeeds.
    pub reconcile-HasReady :
        (sync : Resource Spec → S → Synced S) (s : S) (r : Resource Spec)
        → cluster.get s ≡ fetched r
        → is_paused r.paused ≡ false
        → ((s' : S) → sync r s ≢ sync_panics s')
        → HasReady
            (state_after (reconcile cluster false sync s))
            (is_reconciled (reconcile cluster false sync s))
    unfolding reconcile reconcile_fetched
    reconcile-HasReady sync s r found running returns =
        rw (found, reconcile_fetched, running) (after_sync-HasReady sync r (sync r s) returns)
