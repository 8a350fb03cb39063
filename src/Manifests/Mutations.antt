-- ===== src/Manifests/Mutations.antt =====
-- internal/pkg/manifests/mutations.go: how the object on the server takes over what is desired. The
-- parts of an object that are copied whole are values of a parameter `Value`; the merge of two maps
-- is package mergo's.
pub mod Selector
pub mod Stable
use thanos_operator.Common.{Bool, List, [], ◌∷◌, Option, none, some, Labels, if◌then◌else◌}

-- `metav1.ObjectMeta`, as far as the code reads and writes it.
pub record Meta (Value : Type 0) : Type 0 where
  pub annotations : Option Labels
  pub labels : Option Labels
  pub owner_references : List Value
  pub creation_timestamp_is_zero : Bool

pub record PodSpec (Value : Type 0) : Type 0 where
  pub affinity : Value
  pub containers : Value
  pub init_containers : Value
  pub node_selector : Value
  pub tolerations : Value
  pub topology_spread_constraints : Value
  pub volumes : Value
  pub termination_grace_period_seconds : Value
  pub security_context : Value
  pub service_account_name : Value
  -- The other fields.
  pub rest : Value

pub record PodTemplate (Value : Type 0) : Type 0 where
  pub annotations : Option Labels
  pub labels : Option Labels
  pub spec : PodSpec Value

pub record ConfigMap (Value : Type 0) : Type 0 where
  pub binary_data : Value
  pub data_values : Value
  pub rest : Value

pub record Secret (Value : Type 0) : Type 0 where
  pub data_values : Value
  pub string_data : Value
  pub rest : Value

pub record Service (Value : Type 0) : Type 0 where
  pub ports : Value
  pub selector : Value
  pub rest : Value

pub record Deployment (Value : Type 0) : Type 0 where
  pub selector : Value
  pub replicas : Value
  pub strategy : Value
  pub template : PodTemplate Value
  pub rest : Value

pub record StatefulSet (Value : Type 0) : Type 0 where
  pub selector : Value
  pub replicas : Value
  pub min_ready_seconds : Value
  pub pod_management_policy : Value
  pub persistent_volume_claim_retention_policy : Value
  pub template : PodTemplate Value
  pub rest : Value

pub record ServiceMonitor (Value : Type 0) : Type 0 where
  pub match_labels : Value
  pub namespace_selector : Value
  pub endpoints : Value
  pub rest : Value

pub record RoleBinding (Value : Type 0) : Type 0 where
  pub subjects : Value
  pub role_ref : Value

-- What an object holds beside its metadata, by its concrete type.
pub data Body (Value : Type 0) : Type 0 where
  config_map : ConfigMap Value → Body Value
  secret : Secret Value → Body Value
  service : Service Value → Body Value
  service_account : Value → Body Value
  deployment : Deployment Value → Body Value
  stateful_set : StatefulSet Value → Body Value
  service_monitor : ServiceMonitor Value → Body Value
  -- The whole specification.
  pod_disruption_budget : Value → Body Value
  -- The rules.
  role : Value → Body Value
  role_binding : RoleBinding Value → Body Value
  other_type : Value → Body Value

pub record Object (Value : Type 0) : Type 0 where
  pub meta : Meta Value
  pub body : Body Value

-- What a mutate function comes to; the desired object of another type makes a type assertion panic.
pub data Mutated (A : Type 0) : Type 0 where
  mutated : A → Mutated A
  missing_implementation : Mutated A
  merge_failed : Mutated A
  panicked : Mutated A

unfoldable pub mutate_pod_spec : {Value : Type 0} → PodSpec Value → PodSpec Value → PodSpec Value
mutate_pod_spec existing desired = record desired { rest = existing.rest }

unfoldable pub mutate_pod_template :
    {Value : Type 0} → PodTemplate Value → PodTemplate Value → PodTemplate Value
unfolding mutate_pod_spec
mutate_pod_template existing desired = record desired {
  spec = mutate_pod_spec existing.spec desired.spec;
}

unfoldable pub mutate_config_map :
    {Value : Type 0} → ConfigMap Value → ConfigMap Value → ConfigMap Value
mutate_config_map existing desired = record desired { rest = existing.rest }

unfoldable pub mutate_secret : {Value : Type 0} → Secret Value → Secret Value → Secret Value
mutate_secret existing desired = record desired { rest = existing.rest }

unfoldable pub mutate_service : {Value : Type 0} → Service Value → Service Value → Service Value
mutate_service existing desired = record desired { rest = existing.rest }

-- The selector is written only where the object is new.
unfoldable pub mutate_deployment :
    {Value : Type 0} → Bool → Deployment Value → Deployment Value → Deployment Value
unfolding mutate_pod_template
mutate_deployment is_new existing desired = record {
  selector = if is_new then desired.selector else existing.selector;
  replicas = desired.replicas;
  strategy = desired.strategy;
  template = mutate_pod_template existing.template desired.template;
  rest = existing.rest;
}

unfoldable pub mutate_stateful_set :
    {Value : Type 0} → Bool → StatefulSet Value → StatefulSet Value → StatefulSet Value
unfolding mutate_pod_template
mutate_stateful_set is_new existing desired = record {
  selector = if is_new then desired.selector else existing.selector;
  replicas = desired.replicas;
  min_ready_seconds = desired.min_ready_seconds;
  pod_management_policy = desired.pod_management_policy;
  persistent_volume_claim_retention_policy = desired.persistent_volume_claim_retention_policy;
  template = mutate_pod_template existing.template desired.template;
  rest = existing.rest;
}

unfoldable pub mutate_service_monitor :
    {Value : Type 0} → ServiceMonitor Value → ServiceMonitor Value → ServiceMonitor Value
mutate_service_monitor existing desired = record desired { rest = existing.rest }

-- `SetOwnerReferences`, where there are any.
unfoldable pub owner_references : {Value : Type 0} → List Value → List Value → List Value
owner_references existing [] = existing
owner_references existing (r ∷ refs) = r ∷ refs

-- Labels and annotations, or only the labels, of the desired object.
abbrev pub overwrite : {Value : Type 0} → Meta Value → Meta Value → Meta Value
overwrite existing desired = record existing {
  annotations = desired.annotations;
  labels = desired.labels;
}

abbrev pub overwrite_labels : {Value : Type 0} → Meta Value → Meta Value → Meta Value
overwrite_labels existing desired = record existing { labels = desired.labels }

-- The switch over the type; the first object's metadata is merged already.
unfoldable pub mutate_body :
    {Value : Type 0} → Meta Value → Body Value → Meta Value → Body Value → Mutated (Object Value)
unfolding mutate_config_map mutate_secret mutate_service mutate_deployment mutate_stateful_set
    mutate_service_monitor
mutate_body m (config_map e) n (config_map d) =
    mutated (record { meta = overwrite m n; body = config_map (mutate_config_map e d) })
mutate_body m (secret e) n (secret d) =
    mutated (record { meta = overwrite m n; body = secret (mutate_secret e d) })
mutate_body m (service e) n (service d) =
    mutated (record { meta = overwrite_labels m n; body = service (mutate_service e d) })
mutate_body m (service_account e) n (service_account d) =
    mutated (record { meta = overwrite_labels m n; body = service_account e })
mutate_body m (deployment e) n (deployment d) =
    mutated
      (record { meta = m; body = deployment (mutate_deployment m.creation_timestamp_is_zero e d) })
mutate_body m (stateful_set e) n (stateful_set d) = mutated (record {
  meta = m;
  body = stateful_set (mutate_stateful_set m.creation_timestamp_is_zero e d);
})
mutate_body m (service_monitor e) n (service_monitor d) =
    mutated (record { meta = overwrite m n; body = service_monitor (mutate_service_monitor e d) })
mutate_body m (pod_disruption_budget e) n (pod_disruption_budget d) =
    mutated (record { meta = overwrite m n; body = pod_disruption_budget d })
mutate_body m (role e) n (role d) = mutated (record { meta = overwrite m n; body = role d })
mutate_body m (role_binding e) n (role_binding d) =
    mutated (record { meta = overwrite m n; body = role_binding d })
mutate_body m (other_type e) n d = missing_implementation
mutate_body m e n d = panicked

-- `mergo.Merge` with override: the merged map, or nothing on an error.
abbrev pub Merge : Type 0
Merge = Option Labels → Option Labels → Option (Option Labels)

unfoldable pub merge_meta : {Value : Type 0} → Merge → Meta Value → Meta Value → Option (Meta Value)
unfolding owner_references
merge_meta merge existing desired = elim (merge existing.annotations desired.annotations) [
  | none ↦ none
  | some annotations ↦ elim (merge existing.labels desired.labels) [
    | none ↦ none
    | some labels ↦ some (record {
      annotations = annotations;
      labels = labels;
      owner_references = owner_references existing.owner_references desired.owner_references;
      creation_timestamp_is_zero = existing.creation_timestamp_is_zero;
    })
  ]
]

-- From the merged metadata on.
unfoldable pub mutate_merged :
    {Value : Type 0} → Option (Meta Value) → Object Value → Object Value → Mutated (Object Value)
unfolding mutate_body
mutate_merged none existing desired = merge_failed
mutate_merged (some m) existing desired = mutate_body m existing.body desired.meta desired.body

-- The function that `MutateFuncFor` returns, called.
unfoldable pub mutate :
    {Value : Type 0} → Merge → Object Value → Object Value → Mutated (Object Value)
unfolding merge_meta mutate_merged
mutate merge existing desired =
    mutate_merged (merge_meta merge existing.meta desired.meta) existing desired
