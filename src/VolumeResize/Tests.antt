-- ===== src/VolumeResize/Tests.antt =====
-- The theorems on volume resizing at a small cluster.
use mathlib.Core.List.{Memᴰ}
use mathlib.Core.List.Memᴰ
use mathlib.Core.Path.{subst}
use thanos_operator.Common.Opt.{some-eq}
use thanos_operator.Common.{
  ℕ, ◌≤◌, String, false, [], ◌∷◌, ◌≡◌, refl, sym, Option, none, some, ltb, lookup, arith,
  if◌then◌else◌, ◌==◌,
}
use thanos_operator.VolumeResize.{
  StatefulSet, Pvc, found, patched, delete_failed, Environment, done, reconcile,
  is_thanos_operator_stateful_set, has_label, read, managed_by_label, default_managed_by_label,
  part_of_label, default_part_of_label, instance_label, storage_size_annotation, resource_storage,
  current_size,
}
use thanos_operator.VolumeResize.Frame.{
  IsManaged, IsKeptByGrowing, final_state, after_patch, after_delete, reconcile-frame,
}
use thanos_operator.VolumeResize.Settled.{IsLargeEnough, reconcile-large_enough}

abbrev set_of : String → StatefulSet
set_of size = record {
  namespace = "ns";
  name = "store";
  labels = some (
      (managed_by_label, default_managed_by_label)
      ∷ (part_of_label, default_part_of_label)
      ∷ (instance_label, "s")
      ∷ []);
  annotations = some ((storage_size_annotation, size) ∷ []);
}

abbrev claim : ℕ → Pvc ℕ
claim n = record {
  namespace = "ns";
  name = "data-store-0";
  requests = some ((resource_storage, n) ∷ []);
}

abbrev parse : String → Option ℕ
parse size = if size == "10Gi" then some 10 else none

-- The server's state is what its one claim requests; a patch makes it request 10 and deleting fails.
abbrev environment : String → Environment
environment size = record {
  Quantity = ℕ;
  zero_quantity = 0;
  parse_quantity = parse;
  is_greater = λ a b. ltb b a;
  State = ℕ;
  get = λ s namespace name. found (set_of size);
  list = λ s namespace label. some (claim s ∷ []);
  patch = λ s old new. patched 10;
  delete = λ s sts. delete_failed s;
}

managed : (size : String) (n : ℕ) → IsManaged (environment size) n "ns" "store" (set_of size)
unfolding is_thanos_operator_stateful_set has_label lookup
managed size n = (refl, refl)

abbrev IsNoSmaller : ℕ → Type 0
IsNoSmaller n = 5 ≤ n

kept :
    (sts : StatefulSet)
    → IsManaged (environment "10Gi") 5 "ns" "store" sts
    → IsKeptByGrowing (environment "10Gi") sts IsNoSmaller
      × ((s : ℕ) → IsNoSmaller s → IsNoSmaller (after_delete ((environment "10Gi").delete s sts)))
unfolding after_patch after_delete
kept sts m = ((λ s pvc requests size_str requested r a e g h. omega arith), λ s h. h)

reconcile-frame_example :
    IsNoSmaller (final_state (environment "10Gi") (reconcile (environment "10Gi") "ns" "store" 5))
reconcile-frame_example =
    reconcile-frame (environment "10Gi") "ns" "store" 5 IsNoSmaller kept (omega arith)

annotation_lem :
    (size : String) → read (set_of size).annotations storage_size_annotation ≡ some size
unfolding read lookup
annotation_lem size = refl

-- The claim requests enough for the size.
abbrev IsEnough : Pvc ℕ → String → Type 0
IsEnough pvc size =
    (requested : ℕ) × (parse size ≡ some requested)
    × (ltb (current_size (environment "10Gi") pvc) requested ≡ false)

claim-IsEnough : IsEnough (claim 10) "10Gi"
unfolding current_size read lookup
claim-IsEnough = (10, refl, refl)

size_eq :
    (size : String)
    → read (set_of "10Gi").annotations storage_size_annotation ≡ some size
    → "10Gi" ≡ size
unfolding read lookup
size_eq size a = some-eq a

large_enough :
    (pvc : Pvc ℕ)
    → Memᴰ pvc (claim 10 ∷ [])
    → IsLargeEnough (environment "10Gi") (set_of "10Gi") pvc
large_enough pvc m size a =
    subst (λ p. IsEnough p size) (sym (Memᴰ.eq_of_singleton m))
      (subst (IsEnough (claim 10)) (size_eq size a) claim-IsEnough)

reconcile-large_enough_example : reconcile (environment "10Gi") "ns" "store" 10 ≡ done 10
reconcile-large_enough_example =
    reconcile-large_enough (environment "10Gi") "ns" "store" 10 (set_of "10Gi") (claim 10 ∷ [])
      (managed "10Gi" 10) refl large_enough
