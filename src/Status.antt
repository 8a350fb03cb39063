-- ===== src/Status.antt =====
-- internal/controller/object_status_controller.go: the status fields of the operator's resources,
-- from the workloads that they own. Listing is a parameter; a call of `Status().Update`, whose error is
-- only logged, is an entry of the returned list.
pub mod Last
mod Tests
use thanos_operator.Common.{
  ℕ, String, Bool, true, false, ◌&&◌, ◌==◌, List, [], ◌∷◌, map, Option, none, some, GoMap, Labels,
  lookup, insert, index, if◌then◌else◌,
}

abbrev pub query_name : String
query_name = "thanos-query"

abbrev pub query_frontend_name : String
query_frontend_name = "thanos-query-frontend"

abbrev pub router_component_name : String
router_component_name = "thanos-receive-router"

abbrev pub ingest_component_name : String
ingest_component_name = "thanos-receive-ingester"

abbrev pub compact_name : String
compact_name = "thanos-compact"

abbrev pub ruler_name : String
ruler_name = "thanos-ruler"

abbrev pub store_name : String
store_name = "thanos-store"

abbrev pub hashring_label : String
hashring_label = "operator.thanos.io/hashring"

abbrev pub shard_label : String
shard_label = "operator.thanos.io/shard"

pub record OwnerReference : Type 0 where
  pub api_version : String
  pub kind : String
  pub name : String

-- A Deployment or a StatefulSet, as far as the controller reads it.
pub record Workload : Type 0 where
  pub name : String
  pub labels : Labels
  pub owner_references : List OwnerReference
  pub container_names : List String
  pub available_replicas : ℕ
  pub replicas : ℕ
  pub ready_replicas : ℕ
  pub updated_replicas : ℕ
  pub unavailable_replicas : ℕ
  pub current_replicas : ℕ

-- A resource of the operator's: its metadata, and its group version and kind.
pub record Resource : Type 0 where
  pub namespace : String
  pub name : String
  pub labels : Labels
  pub group_version : String
  pub kind : String

pub record Stats : Type 0 where
  pub name : String
  pub labels : Labels
  pub container_names : List String
  pub available_replicas : ℕ
  pub replicas : ℕ
  pub ready_replicas : ℕ
  pub updated_replicas : ℕ
  pub unavailable_replicas : ℕ
  pub current_replicas : ℕ

pub record DeploymentStatus : Type 0 where
  pub available_replicas : ℕ
  pub replicas : ℕ
  pub updated_replicas : ℕ
  pub unavailable_replicas : ℕ
  pub ready_replicas : ℕ

pub record StatefulSetStatus : Type 0 where
  pub available_replicas : ℕ
  pub replicas : ℕ
  pub updated_replicas : ℕ
  pub ready_replicas : ℕ
  pub current_replicas : ℕ

pub record QueryStatus : Type 0 where
  pub querier : DeploymentStatus
  pub query_frontend : DeploymentStatus

pub record ReceiveStatus : Type 0 where
  pub router : DeploymentStatus
  pub hashring_status : GoMap StatefulSetStatus

-- The workloads of a namespace that carry the labels; nothing on an error.
abbrev pub Lister : Type 0
Lister = String → Labels → Option (List Workload)

unfoldable pub refers_to : Resource → OwnerReference → Bool
refers_to object ref =
    (ref.api_version == object.group_version && ref.kind == object.kind) && ref.name == object.name

unfoldable pub is_owned : Resource → List OwnerReference → Bool
unfolding refers_to
is_owned object [] = false
is_owned object (ref ∷ refs) = if refers_to object ref then true else is_owned object refs

unfoldable pub deployment_stats : Workload → Stats
deployment_stats w = record {
  name = w.name;
  labels = w.labels;
  container_names = w.container_names;
  available_replicas = w.available_replicas;
  replicas = w.replicas;
  ready_replicas = w.ready_replicas;
  updated_replicas = w.updated_replicas;
  unavailable_replicas = w.unavailable_replicas;
  current_replicas = 0;
}

unfoldable pub stateful_set_stats : Workload → Stats
stateful_set_stats w = record {
  name = w.name;
  labels = w.labels;
  container_names = w.container_names;
  available_replicas = w.available_replicas;
  replicas = w.replicas;
  ready_replicas = w.ready_replicas;
  updated_replicas = w.updated_replicas;
  unavailable_replicas = 0;
  current_replicas = w.current_replicas;
}

unfoldable pub owned_stats : (Workload → Stats) → Resource → List Workload → List Stats
unfolding is_owned
owned_stats stats object [] = []
owned_stats stats object (w ∷ ws) =
    let rest = owned_stats stats object ws in
    if is_owned object w.owner_references then stats w ∷ rest else rest

unfoldable pub listed_stats : (Workload → Stats) → Resource → Option (List Workload) → List Stats
unfolding owned_stats
listed_stats stats object none = []
listed_stats stats object (some ws) = owned_stats stats object ws

unfoldable pub get_deployment_statuses : Lister → Resource → List Stats
unfolding listed_stats deployment_stats
get_deployment_statuses list object =
    listed_stats deployment_stats object (list object.namespace object.labels)

unfoldable pub get_statefulset_statuses : Lister → Resource → List Stats
unfolding listed_stats stateful_set_stats
get_statefulset_statuses list object =
    listed_stats stateful_set_stats object (list object.namespace object.labels)

-- The loop over a workload's containers, and that over the workloads: where a container has the name,
-- the step is taken.
unfoldable pub for_containers :
    {A : Type 0} → String → (Stats → A → A) → Stats → List String → A → A
for_containers name step status [] acc = acc
for_containers name step status (c ∷ cs) acc =
    for_containers name step status cs (if c == name then step status acc else acc)

unfoldable pub for_statuses : {A : Type 0} → String → (Stats → A → A) → List Stats → A → A
unfolding for_containers
for_statuses name step [] acc = acc
for_statuses name step (status ∷ statuses) acc =
    for_statuses name step statuses (for_containers name step status status.container_names acc)

unfoldable pub deployment_status : Stats → DeploymentStatus
deployment_status s = record {
  available_replicas = s.available_replicas;
  replicas = s.replicas;
  updated_replicas = s.updated_replicas;
  unavailable_replicas = s.unavailable_replicas;
  ready_replicas = s.ready_replicas;
}

unfoldable pub stateful_set_status : Stats → StatefulSetStatus
stateful_set_status s = record {
  available_replicas = s.available_replicas;
  replicas = s.replicas;
  updated_replicas = s.updated_replicas;
  ready_replicas = s.ready_replicas;
  current_replicas = s.current_replicas;
}

-- `status.labels[manifests.ShardLabel]`, or "default" where there is no such label.
unfoldable pub shard_name : Stats → String
shard_name s = elim (lookup shard_label s.labels) [ none ↦ "default" | some name ↦ name ]

-- `status.labels[manifests.HashringLabel]`, or "default" where that is "".
unfoldable pub hashring_name : Stats → String
hashring_name s = let name = index hashring_label s.labels in if name == "" then "default" else name

-- A map of statuses, written from the loop.
unfoldable pub keyed_statuses : String → (Stats → String) → List Stats → GoMap StatefulSetStatus
unfolding for_statuses stateful_set_status
keyed_statuses name key statuses =
    for_statuses name (λ s m. insert (key s) (stateful_set_status s) m) statuses []

unfoldable pub store_statuses : Lister → Resource → GoMap StatefulSetStatus
unfolding keyed_statuses shard_name get_statefulset_statuses
store_statuses list store =
    keyed_statuses store_name shard_name (get_statefulset_statuses list store)

unfoldable pub compact_statuses : Lister → Resource → GoMap StatefulSetStatus
unfolding keyed_statuses shard_name get_statefulset_statuses
compact_statuses list compact =
    keyed_statuses compact_name shard_name (get_statefulset_statuses list compact)

unfoldable pub ruler_status : Lister → Resource → StatefulSetStatus → StatefulSetStatus
unfolding for_statuses stateful_set_status get_statefulset_statuses
ruler_status list ruler old =
    for_statuses ruler_name (λ s old'. stateful_set_status s) (get_statefulset_statuses list ruler)
      old

unfoldable pub receive_status : Lister → Lister → Resource → ReceiveStatus → ReceiveStatus
unfolding for_statuses deployment_status keyed_statuses hashring_name get_deployment_statuses
    get_statefulset_statuses
receive_status list_deployments list_stateful_sets receive old = record {
  router =
      for_statuses router_component_name (λ s old'. deployment_status s)
        (get_deployment_statuses list_deployments receive) old.router;
  hashring_status =
      keyed_statuses ingest_component_name hashring_name
        (get_statefulset_statuses list_stateful_sets receive);
}

-- The two tests of a container's name write different fields.
unfoldable pub query_status : Lister → Resource → QueryStatus → QueryStatus
unfolding for_statuses deployment_status get_deployment_statuses
query_status list query old = record {
  querier =
      for_statuses query_name (λ s old'. deployment_status s) (get_deployment_statuses list query)
        old.querier;
  query_frontend =
      for_statuses query_frontend_name (λ s old'. deployment_status s)
        (get_deployment_statuses list query) old.query_frontend;
}

-- `updateAll…Statuses`: the updates of all listed resources, or none where they cannot be listed.
unfoldable pub update_all :
    {S : Type 0} → (Resource → S → S) → Option (List (Resource × S)) → List (Resource × S)
update_all status none = []
update_all status (some items) = map (λ i. (i.0, status i.0 i.1)) items
