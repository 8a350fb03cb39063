-- ===== src/Manifests/Mutations/Stable.antt =====
-- Applying the same desired object again changes nothing.
use mathlib.Core.Path.{subst}
use thanos_operator.Common.Opt.{some-eq}
use thanos_operator.Common.{
  Bool, true, false, List, [], ◌∷◌, ◌≡◌, refl, sym, ap, ◌∙◌, inl, inr, Option, none, some,
  Option-cases, if◌then◌else◌, arith, Labels,
}
use thanos_operator.Manifests.Mutations.{
  Meta, Body, Object, Merge, mutated, mutate, mutate_merged, mutate_body, overwrite,
  overwrite_labels, owner_references, Deployment, StatefulSet, merge_meta, mutate_deployment,
  mutate_stateful_set, mutate_config_map, mutate_secret, mutate_service, mutate_service_monitor,
  mutate_pod_template, mutate_pod_spec, config_map, secret, service, service_account, deployment,
  stateful_set, service_monitor, pod_disruption_budget, role, role_binding,
}
use thanos_operator.Manifests.Mutations.Selector.{IfMutated}

-- Merging what was merged in already, and merging a map into itself, change nothing.
abbrev pub IsStableMerge : Merge → Type 0
IsStableMerge merge =
    ((a b c : Option Labels) → merge a b ≡ some c → merge c b ≡ some c)
    × ((a : Option Labels) → merge a a ≡ some a)

owner_references-stable :
    {Value : Type 0}
    → (existing desired : List Value)
    → owner_references (owner_references existing desired) desired
      ≡ owner_references existing desired
unfolding owner_references
owner_references-stable existing [] = refl
owner_references-stable existing (r ∷ refs) = refl

-- The metadata is what merging the desired metadata into some metadata gave.
record IsMerged {Value : Type 0} (merge : Merge) (desired m : Meta Value) : Type 0 where
  annotations : merge m.annotations desired.annotations ≡ some m.annotations
  labels : merge m.labels desired.labels ≡ some m.labels
  owners : owner_references m.owner_references desired.owner_references ≡ m.owner_references

merge_meta-IsMerged :
    {Value : Type 0}
    → (merge : Merge) (existing desired m : Meta Value) → IsStableMerge merge
    → merge_meta merge existing desired ≡ some m
    → IsMerged merge desired m
unfolding merge_meta
merge_meta-IsMerged {Value} merge existing desired m stable h =
    elim (Option-cases (merge existing.annotations desired.annotations)) [
      | inl e ↦ ground arith
      | inr (a, e) ↦ elim (Option-cases (merge existing.labels desired.labels)) [
        | inl f ↦ ground arith
        | inr (l, f) ↦
            let made : Meta Value = record {
              annotations = a;
              labels = l;
              owner_references =
                  owner_references existing.owner_references desired.owner_references;
              creation_timestamp_is_zero = existing.creation_timestamp_is_zero;
            } in
            let returned : merge_meta merge existing desired ≡ some made = ground arith in
            subst (IsMerged merge desired) (some-eq (sym returned ∙ h)) (record {
              annotations = stable.0 existing.annotations desired.annotations a e;
              labels = stable.0 existing.labels desired.labels l f;
              owners = owner_references-stable existing.owner_references desired.owner_references;
            })
      ]
    ]

IsMerged-merge_meta :
    {Value : Type 0}
    → (merge : Merge) (desired m : Meta Value) → IsMerged merge desired m
    → merge_meta merge m desired ≡ some m
unfolding merge_meta
IsMerged-merge_meta merge desired m h = rw (merge_meta, h.annotations, h.labels, h.owners) refl

choose-stable :
    {Value : Type 0}
    → (b : Bool) (x y : Value) → (if b then x else (if b then x else y)) ≡ (if b then x else y)
choose-stable true x y = refl
choose-stable false x y = refl

mutate_deployment-stable :
    {Value : Type 0}
    → (b : Bool) (e d : Deployment Value)
    → mutate_deployment b (mutate_deployment b e d) d ≡ mutate_deployment b e d
unfolding mutate_deployment mutate_pod_template mutate_pod_spec
mutate_deployment-stable true e d = refl
mutate_deployment-stable false e d = refl

mutate_stateful_set-stable :
    {Value : Type 0}
    → (b : Bool) (e d : StatefulSet Value)
    → mutate_stateful_set b (mutate_stateful_set b e d) d ≡ mutate_stateful_set b e d
unfolding mutate_stateful_set mutate_pod_template mutate_pod_spec
mutate_stateful_set-stable true e d = refl
mutate_stateful_set-stable false e d = refl

module _ {Value : Type 0} (merge : Merge) (stable : IsStableMerge merge) where
  overwrite-IsMerged : (m n : Meta Value) → IsMerged merge n m → IsMerged merge n (overwrite m n)
  overwrite-IsMerged m n h = record {
    annotations = stable.1 n.annotations;
    labels = stable.1 n.labels;
    owners = h.owners;
  }

  overwrite_labels-IsMerged :
      (m n : Meta Value) → IsMerged merge n m → IsMerged merge n (overwrite_labels m n)
  overwrite_labels-IsMerged m n h = record {
    annotations = h.annotations;
    labels = stable.1 n.labels;
    owners = h.owners;
  }

  again :
      (m n : Meta Value) (r d : Body Value)
      → IsMerged merge n m
      → mutate_body m r n d ≡ mutated (record { meta = m; body = r })
      → mutate_merged
          (merge_meta merge m n)
          (record { meta = m; body = r })
          (record { meta = n; body = d })
        ≡ mutated (record { meta = m; body = r })
  unfolding mutate_merged
  again m n r d h same =
      ap (λ o. mutate_merged o (record { meta = m; body = r }) (record { meta = n; body = d }))
        (IsMerged-merge_meta merge n m h)
      ∙ same

  mutate_body-again :
      (m n : Meta Value) (e d : Body Value)
      → IsMerged merge n m
      → IfMutated
          (λ r.
            mutate_merged (merge_meta merge r.meta n) r (record { meta = n; body = d }) ≡ mutated r)
          (mutate_body m e n d)
  unfolding mutate_body IfMutated mutate_config_map mutate_secret mutate_service
      mutate_service_monitor
  mutate_body-again m n (config_map e) (config_map d) h =
      again (overwrite m n) n (config_map (mutate_config_map e d)) (config_map d)
        (overwrite-IsMerged m n h) refl
  mutate_body-again m n (secret e) (secret d) h =
      again (overwrite m n) n (secret (mutate_secret e d)) (secret d) (overwrite-IsMerged m n h)
        refl
  mutate_body-again m n (service e) (service d) h =
      again (overwrite_labels m n) n (service (mutate_service e d)) (service d)
        (overwrite_labels-IsMerged m n h) refl
  mutate_body-again m n (service_account e) (service_account d) h =
      again (overwrite_labels m n) n (service_account e) (service_account d)
        (overwrite_labels-IsMerged m n h) refl
  mutate_body-again m n (service_monitor e) (service_monitor d) h =
      again (overwrite m n) n (service_monitor (mutate_service_monitor e d)) (service_monitor d)
        (overwrite-IsMerged m n h) refl
  mutate_body-again m n (pod_disruption_budget e) (pod_disruption_budget d) h =
      again (overwrite m n) n (pod_disruption_budget d) (pod_disruption_budget d)
        (overwrite-IsMerged m n h) refl
  mutate_body-again m n (role e) (role d) h =
      again (overwrite m n) n (role d) (role d) (overwrite-IsMerged m n h) refl
  mutate_body-again m n (role_binding e) (role_binding d) h =
      again (overwrite m n) n (role_binding d) (role_binding d) (overwrite-IsMerged m n h) refl
  mutate_body-again m n (deployment e) (deployment d) h =
      again m n (deployment (mutate_deployment m.creation_timestamp_is_zero e d)) (deployment d) h (
        ap (λ r. mutated (record { meta = m; body = deployment r }))
          (mutate_deployment-stable m.creation_timestamp_is_zero e d))
  mutate_body-again m n (stateful_set e) (stateful_set d) h =
      again m n (stateful_set (mutate_stateful_set m.creation_timestamp_is_zero e d))
        (stateful_set d) h
        (ap (λ r. mutated (record { meta = m; body = stateful_set r }))
          (mutate_stateful_set-stable m.creation_timestamp_is_zero e d))
  mutate_body-again m n e d h = tt

  mutate_merged-again :
      (o : Option (Meta Value)) (existing desired : Object Value)
      → ((m : Meta Value) → o ≡ some m → IsMerged merge desired.meta m)
      → IfMutated (λ r. mutate merge r desired ≡ mutated r) (mutate_merged o existing desired)
  unfolding mutate_merged mutate IfMutated
  mutate_merged-again none existing desired h = tt
  mutate_merged-again (some m) existing desired h =
      mutate_body-again m desired.meta existing.body desired.body (h m refl)

-- Where mutating succeeds, mutating the result again by the same desired object succeeds and changes
-- nothing, for an object of any supported type; if merging a map that was merged in already, or a map
-- into itself, changes nothing.
pub mutate-again :
    {Value : Type 0}
    → (merge : Merge) (existing desired : Object Value) → IsStableMerge merge
    → IfMutated (λ r. mutate merge r desired ≡ mutated r) (mutate merge existing desired)
unfolding mutate
mutate-again merge existing desired stable =
    mutate_merged-again merge stable (merge_meta merge existing.meta desired.meta) existing desired
      (λ m. merge_meta-IsMerged merge existing.meta desired.meta m stable)
