-- ===== src/Manifests/Mutations/Selector.antt =====
-- The selectors of workloads, which the API server does not let change.
use thanos_operator.Common.{
  Bool, true, false, ◌≡◌, refl, sym, inl, inr, Option, none, some, Option-cases, if◌then◌else◌,
  arith,
}
use thanos_operator.Manifests.Mutations.{
  Meta, Body, Object, Merge, Mutated, mutated, missing_implementation, merge_failed, panicked,
  mutate, mutate_merged, mutate_body, merge_meta, mutate_deployment, mutate_stateful_set,
  config_map, secret, service, service_account, deployment, stateful_set, service_monitor,
  pod_disruption_budget, role, role_binding,
}

-- The selector of a Deployment or StatefulSet.
unfoldable pub selector_of : {Value : Type 0} → Body Value → Option Value
selector_of (deployment d) = some d.selector
selector_of (stateful_set s) = some s.selector
selector_of b = none

-- A result, if there is one, has the property.
unfoldable pub IfMutated : {A : Type 0} → (A → Type 0) → Mutated A → Type 0
IfMutated P (mutated a) = P a
IfMutated P missing_implementation = Unit {0}
IfMutated P merge_failed = Unit {0}
IfMutated P panicked = Unit {0}

neither :
    {Value : Type 0}
    → (b : Bool) → (let nothing : Option Value = none in nothing ≡ (if b then nothing else nothing))
neither true = refl
neither false = refl

mutate_body-selector :
    {Value : Type 0}
    → (m n : Meta Value) (e d : Body Value)
    → IfMutated
        (λ r.
          selector_of r.body
          ≡ (if m.creation_timestamp_is_zero then selector_of d else selector_of e))
        (mutate_body m e n d)
unfolding mutate_body IfMutated selector_of mutate_deployment mutate_stateful_set
mutate_body-selector m n (config_map e) (config_map d) = neither m.creation_timestamp_is_zero
mutate_body-selector m n (secret e) (secret d) = neither m.creation_timestamp_is_zero
mutate_body-selector m n (service e) (service d) = neither m.creation_timestamp_is_zero
mutate_body-selector m n (service_account e) (service_account d) =
    neither m.creation_timestamp_is_zero
mutate_body-selector m n (deployment e) (deployment d) = ground arith
mutate_body-selector m n (stateful_set e) (stateful_set d) = ground arith
mutate_body-selector m n (service_monitor e) (service_monitor d) =
    neither m.creation_timestamp_is_zero
mutate_body-selector m n (pod_disruption_budget e) (pod_disruption_budget d) =
    neither m.creation_timestamp_is_zero
mutate_body-selector m n (role e) (role d) = neither m.creation_timestamp_is_zero
mutate_body-selector m n (role_binding e) (role_binding d) = neither m.creation_timestamp_is_zero
mutate_body-selector m n e d = tt

merge_meta-is_new :
    {Value : Type 0}
    → (merge : Merge) (existing desired m : Meta Value) → merge_meta merge existing desired ≡ some m
    → m.creation_timestamp_is_zero ≡ existing.creation_timestamp_is_zero
unfolding merge_meta
merge_meta-is_new merge existing desired m h =
    elim (Option-cases (merge existing.annotations desired.annotations)) [
      | inl e ↦ ground arith
      | inr (annotations, e) ↦ elim (Option-cases (merge existing.labels desired.labels)) [
        | inl f ↦ ground arith
        | inr (labels, f) ↦ ground arith
      ]
    ]

mutate_merged-selector :
    {Value : Type 0}
    → (o : Option (Meta Value)) (existing desired : Object Value)
    → ((m : Meta Value)
        → o ≡ some m
        → m.creation_timestamp_is_zero ≡ existing.meta.creation_timestamp_is_zero)
    → IfMutated
        (λ r. selector_of r.body ≡ (
          if existing.meta.creation_timestamp_is_zero
          then selector_of desired.body
          else selector_of existing.body))
        (mutate_merged o existing desired)
unfolding mutate_merged IfMutated
mutate_merged-selector none existing desired h = tt
mutate_merged-selector (some m) existing desired h =
    rw (sym (h m refl)) (mutate_body-selector m desired.meta existing.body desired.body)

-- Where mutating succeeds, the selector of a Deployment or StatefulSet afterwards is the desired one
-- if the object is new, and else the one that it had; whatever the merge of maps does.
pub mutate-selector :
    {Value : Type 0}
    → (merge : Merge) (existing desired : Object Value)
    → IfMutated
        (λ r. selector_of r.body ≡ (
          if existing.meta.creation_timestamp_is_zero
          then selector_of desired.body
          else selector_of existing.body))
        (mutate merge existing desired)
unfolding mutate
mutate-selector merge existing desired =
    mutate_merged-selector (merge_meta merge existing.meta desired.meta) existing desired
      (merge_meta-is_new merge existing.meta desired.meta)
