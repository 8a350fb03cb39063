-- ===== src/VolumeResize.antt =====
-- internal/controller/volume_resize_controller.go. The API server is reached through the client, and
-- quantities are compared and parsed by package resource; both are parameters.
pub mod Frame
pub mod Settled
mod Tests
use thanos_operator.Common.{
  ℕ, zero, suc, String, Bool, true, false, not, ◌&&◌, ◌==◌, List, [], ◌∷◌, Option, none, some,
  GoMap, Labels, lookup, insert, index, if◌then◌else◌,
}

abbrev pub managed_by_label : String
managed_by_label = "app.kubernetes.io/managed-by"

abbrev pub default_managed_by_label : String
default_managed_by_label = "thanos-operator"

abbrev pub part_of_label : String
part_of_label = "app.kubernetes.io/part-of"

abbrev pub default_part_of_label : String
default_part_of_label = "thanos"

abbrev pub instance_label : String
instance_label = "app.kubernetes.io/instance"

abbrev pub storage_size_annotation : String
storage_size_annotation = "operator.thanos.io/storage-size"

abbrev pub resource_storage : String
resource_storage = "storage"

-- A map that may be nil; reading a nil map finds nothing.
unfoldable pub read : {V : Type 0} → Option (GoMap V) → String → Option V
read none k = none
read (some m) k = lookup k m

-- What the controller reads of a StatefulSet.
pub record StatefulSet : Type 0 where
  pub namespace : String
  pub name : String
  pub labels : Option Labels
  pub annotations : Option Labels

-- What the controller reads and writes of a PersistentVolumeClaim.
pub record Pvc (Quantity : Type 0) : Type 0 where
  pub namespace : String
  pub name : String
  pub requests : Option (GoMap Quantity)

pub data GetResult : Type 0 where
  found : StatefulSet → GetResult
  not_found : GetResult
  get_failed : GetResult

pub data PatchResult (S : Type 0) : Type 0 where
  patched : S → PatchResult S
  patch_failed : S → PatchResult S

pub data DeleteResult (S : Type 0) : Type 0 where
  deleted : S → DeleteResult S
  already_deleted : S → DeleteResult S
  delete_failed : S → DeleteResult S

pub record Environment : Type 1 where
  pub Quantity : Type 0
  pub zero_quantity : Quantity
  pub parse_quantity : String → Option Quantity
  -- `a.Cmp(b) >= 1`
  pub is_greater : Quantity → Quantity → Bool
  pub State : Type 0
  pub get : State → String → String → GetResult
  -- The claims of a namespace with an instance label.
  pub list : State → String → String → Option (List (Pvc Quantity))
  -- The claim, and what it becomes.
  pub patch : State → Pvc Quantity → Pvc Quantity → PatchResult State
  -- With the orphan propagation policy.
  pub delete : State → StatefulSet → DeleteResult State

unfoldable pub has_label : Labels → String → String → Bool
has_label labels key value = elim (lookup key labels) [ none ↦ false | some v ↦ v == value ]

unfoldable pub is_thanos_operator_stateful_set : StatefulSet → Bool
unfolding has_label
is_thanos_operator_stateful_set sts = elim sts.labels [
  | none ↦ false
  | some labels ↦
      has_label labels managed_by_label default_managed_by_label
      && has_label labels part_of_label default_part_of_label
]

-- `sts.GetLabels()["app.kubernetes.io/instance"]`
unfoldable pub instance : StatefulSet → String
unfolding read
instance sts = elim (read sts.labels instance_label) [ none ↦ "" | some v ↦ v ]

module _ (env : Environment) where
  abbrev pub Claim : Type 0
  Claim = Pvc env.Quantity

  -- What processing one claim comes to. A write to a nil map of requests panics.
  pub data Processed : Type 0 where
    unchanged : Processed
    resized : env.State → Processed
    resize_failed : env.State → Processed
    parse_failed : Processed
    panicked : Processed

  unfoldable pub current_size : Claim → env.Quantity
  unfolding read
  current_size pvc = elim (read pvc.requests resource_storage) [
    | none ↦ env.zero_quantity
    | some q ↦ q
  ]

  unfoldable pub patch_result : PatchResult env.State → Processed
  patch_result (patched s) = resized s
  patch_result (patch_failed s) = resize_failed s

  unfoldable pub resize_pvc : Claim → env.Quantity → env.State → Processed
  unfolding patch_result
  resize_pvc pvc new_size s = elim pvc.requests [
    | none ↦ panicked
    | some requests ↦ patch_result (
        env.patch s pvc
          (record pvc { requests = some (insert resource_storage new_size requests) }))
  ]

  -- The error is wrapped.
  abbrev pub parse_storage_size : String → Option env.Quantity
  parse_storage_size size_str = env.parse_quantity size_str

  unfoldable pub process_requested : Claim → String → env.State → Processed
  unfolding resize_pvc current_size
  process_requested pvc size_str s = elim (parse_storage_size size_str) [
    | none ↦ parse_failed
    | some requested ↦
        if env.is_greater requested (current_size pvc)
        then resize_pvc pvc requested s
        else unchanged
  ]

  unfoldable pub process_pvc : Claim → StatefulSet → env.State → Processed
  unfolding process_requested read
  process_pvc pvc sts s = elim (read sts.annotations storage_size_annotation) [
    | none ↦ unchanged
    | some size_str ↦ process_requested pvc size_str s
  ]

  -- The variables of the loop over the claims.
  pub record Run : Type 0 where
    pub state : env.State
    pub err_count : ℕ
    pub needs_recreation : Bool

  -- How a claim's processing, or the loop, ends; a panic leaves the server as it is.
  pub data Looped : Type 0 where
    finished : Run → Looped
    panicked_at : env.State → Looped

  unfoldable pub record_processed : Processed → Run → Looped
  record_processed unchanged run = finished run
  record_processed (resized s) run = finished (record run { state = s; needs_recreation = true })
  record_processed (resize_failed s) run =
      finished (record run { state = s; err_count = suc run.err_count })
  record_processed parse_failed run = finished (record run { err_count = suc run.err_count })
  record_processed panicked run = panicked_at run.state

  -- A pass of the loop over the claims, which a panic ends.
  unfoldable pub process_next : Claim → StatefulSet → Looped → Looped
  unfolding process_pvc record_processed
  process_next pvc sts (panicked_at s) = panicked_at s
  process_next pvc sts (finished run) = record_processed (process_pvc pvc sts run.state) run

  unfoldable pub process_each : List Claim → StatefulSet → Looped → Looped
  unfolding process_next
  process_each [] sts l = l
  process_each (pvc ∷ pvcs) sts l = process_each pvcs sts (process_next pvc sts l)

  -- What `Reconcile` returns, with the server's state.
  pub data Reconciled : Type 0 where
    done : env.State → Reconciled
    failed : env.State → Reconciled
    crashed : env.State → Reconciled

  unfoldable pub delete_result : DeleteResult env.State → Reconciled
  delete_result (deleted s) = done s
  delete_result (already_deleted s) = done s
  delete_result (delete_failed s) = failed s

  unfoldable pub orphan_and_delete_stateful_set : StatefulSet → env.State → Reconciled
  unfolding delete_result
  orphan_and_delete_stateful_set sts s = delete_result (env.delete s sts)

  -- After the loop: the number of errors, and whether a claim was resized.
  unfoldable pub recreate_if_needed : ℕ → Bool → StatefulSet → env.State → Reconciled
  unfolding orphan_and_delete_stateful_set
  recreate_if_needed (suc n) needs_recreation sts s = failed s
  recreate_if_needed zero true sts s = orphan_and_delete_stateful_set sts s
  recreate_if_needed zero false sts s = done s

  unfoldable pub after_loop : StatefulSet → Looped → Reconciled
  unfolding recreate_if_needed
  after_loop sts (panicked_at s) = crashed s
  after_loop sts (finished run) =
      recreate_if_needed run.err_count run.needs_recreation sts run.state

  unfoldable pub process_pvcs : StatefulSet → env.State → Reconciled
  unfolding process_each after_loop instance
  process_pvcs sts s = elim (env.list s sts.namespace (instance sts)) [
    | none ↦ failed s
    | some pvcs ↦ after_loop sts (
        process_each pvcs sts
          (finished (record { state = s; err_count = 0; needs_recreation = false })))
  ]

  unfoldable pub reconcile_found : GetResult → env.State → Reconciled
  unfolding process_pvcs
  reconcile_found not_found s = done s
  reconcile_found get_failed s = failed s
  reconcile_found (found sts) s =
      if is_thanos_operator_stateful_set sts then process_pvcs sts s else done s

  unfoldable pub reconcile : String → String → env.State → Reconciled
  unfolding reconcile_found
  reconcile namespace name s = reconcile_found (env.get s namespace name) s
