-- ===== src/Handlers.antt =====
-- internal/pkg/handlers/handlers.go: deletion and pruning of resources. The API server is reached
-- through the client, a parameter; its state is passed from call to call.
pub mod Frame
pub mod Exact
pub mod Applying
mod Tests
use thanos_operator.Common.{
  ℕ, suc, String, Option, Bool, true, false, not, ◌||◌, ◌==◌, List, [], ◌∷◌, Labels, contains,
  if◌then◌else◌,
}

-- The kinds of object that a pruner lists, and that of an owner.
pub data Kind : Type 0 where
  service_account : Kind
  service : Kind
  stateful_set : Kind
  deployment : Kind
  config_map : Kind
  secret : Kind
  pod_disruption_budget : Kind
  service_monitor : Kind
  custom_resource : Kind

-- What the handlers read of a `client.Object`.
pub record Object : Type 0 where
  pub kind : Kind
  pub namespace : String
  pub name : String
  pub uid : String
  pub labels : Labels

-- The errors that the handlers tell apart.
pub data ApiError : Type 0 where
  not_found : ApiError
  no_match : ApiError
  other : String → ApiError

pub data GetResult : Type 0 where
  found : Object → GetResult
  get_failed : ApiError → GetResult

-- `List`, then `meta.ExtractList`.
pub data ListResult : Type 0 where
  items : List Object → ListResult
  list_failed : ApiError → ListResult
  extract_failed : ListResult

pub data Answer (S : Type 0) : Type 0 where
  ok : S → Answer S
  delete_failed : S → ApiError → Answer S

-- `client.Client` and `metav1.IsControlledBy`, over the states of the API server.
pub record Client : Type 1 where
  pub State : Type 0
  pub ListOption : Type 0
  pub in_namespace : String → ListOption
  pub matching_labels : Labels → ListOption
  pub is_controlled_by : Object → Object → Bool
  pub get : State → Object → GetResult
  pub list : State → Kind → List ListOption → ListResult
  pub delete : State → Object → Answer State

-- `errors.IsNotFound(err) || meta.IsNoMatchError(err)`
unfoldable pub is_ignored : ApiError → Bool
is_ignored not_found = true
is_ignored no_match = true
is_ignored (other e) = false

-- `GetEndpointSlices`: one list call with the service's label and the namespace; its error is wrapped.
unfoldable pub get_endpoint_slices :
    {Slices : Type 0} → (String × String → String → Option Slices) → String → String → Option Slices
get_endpoint_slices list service_name namespace =
    list ("kubernetes.io/service-name", service_name) namespace

-- The flags of a `resourcePruner`.
pub record ResourcePruner : Type 0 where
  pub sa : Bool
  pub svc : Bool
  pub sts : Bool
  pub dep : Bool
  pub cm : Bool
  pub secret_enabled : Bool
  pub pdb : Bool
  pub svc_mon : Bool

abbrev pub new_resource_pruner : ResourcePruner
new_resource_pruner = record {
  sa = false;
  svc = false;
  sts = false;
  dep = false;
  cm = false;
  secret_enabled = false;
  pdb = false;
  svc_mon = false;
}

abbrev pub with_config_map : ResourcePruner → ResourcePruner
with_config_map r = record r { cm = true }

abbrev pub with_secret : ResourcePruner → ResourcePruner
with_secret r = record r { secret_enabled = true }

abbrev pub with_service : ResourcePruner → ResourcePruner
with_service r = record r { svc = true }

abbrev pub with_stateful_set : ResourcePruner → ResourcePruner
with_stateful_set r = record r { sts = true }

abbrev pub with_deployment : ResourcePruner → ResourcePruner
with_deployment r = record r { dep = true }

abbrev pub with_service_monitor : ResourcePruner → ResourcePruner
with_service_monitor r = record r { svc_mon = true }

abbrev pub with_service_account : ResourcePruner → ResourcePruner
with_service_account r = record r { sa = true }

abbrev pub with_pod_disruption_budget : ResourcePruner → ResourcePruner
with_pod_disruption_budget r = record r { pdb = true }

-- The table that `prune` ranges over.
abbrev pub resource_types : ResourcePruner → List (Bool × Kind)
resource_types r =
    (r.sa, service_account)
    ∷ (r.svc, service)
    ∷ (r.sts, stateful_set)
    ∷ (r.dep, deployment)
    ∷ (r.cm, config_map)
    ∷ (r.secret_enabled, secret)
    ∷ (r.pdb, pod_disruption_budget)
    ∷ (r.svc_mon, service_monitor)
    ∷ []

module _ (client : Client) where
  -- The server's state and the number of errors so far.
  pub record Run : Type 0 where
    pub state : client.State
    pub err_count : ℕ

  abbrev pub add_error : Run → Run
  add_error run = record run { err_count = suc run.err_count }

  -- The error that `deleteResource` returns, counted.
  unfoldable pub record_answer : Answer client.State → Run → Run
  record_answer (ok s) run = record run { state = s }
  record_answer (delete_failed s e) run =
      if is_ignored e then record run { state = s } else add_error (record run { state = s })

  unfoldable pub delete_resource : Object → Run → Run
  unfolding record_answer
  delete_resource obj run = record_answer (client.delete run.state obj) run

  unfoldable pub prune_items : (Object → Bool) → List Object → Run → Run
  unfolding delete_resource
  prune_items should_delete [] run = run
  prune_items should_delete (obj ∷ objs) run =
      prune_items should_delete objs (if should_delete obj then delete_resource obj run else run)

  unfoldable pub prune_listed : (Object → Bool) → ListResult → Run → Run
  unfolding prune_items
  prune_listed should_delete (items objs) run = prune_items should_delete objs run
  prune_listed should_delete (list_failed e) run = if is_ignored e then run else add_error run
  prune_listed should_delete extract_failed run = add_error run

  unfoldable pub prune_types :
      (Object → Bool) → List client.ListOption → List (Bool × Kind) → Run → Run
  unfolding prune_listed
  prune_types should_delete opts [] run = run
  prune_types should_delete opts ((enabled, kind) ∷ types) run =
      prune_types should_delete opts types
        (if enabled then prune_listed should_delete (client.list run.state kind opts) run else run)

  unfoldable pub prune_where :
      ResourcePruner → (Object → Bool) → List client.ListOption → client.State → Run
  unfolding prune_types
  prune_where r should_delete opts s =
      prune_types should_delete opts (resource_types r) (record { state = s; err_count = 0 })

  unfoldable pub prune : ResourcePruner → List String → List client.ListOption → client.State → Run
  unfolding prune_where
  prune r keep_resource_names opts s =
      prune_where r (λ obj. not (contains keep_resource_names obj.name)) opts s

  unfoldable pub prune_by_owner : ResourcePruner → Object → client.State → Run
  unfolding prune_where
  prune_by_owner r owner s =
      let run =
        prune_where r (λ obj. client.is_controlled_by obj owner)
          (client.in_namespace owner.namespace ∷ []) s in
      if owner.uid == "" then record { state = s; err_count = 0 } else run

  unfoldable pub delete_found : GetResult → Run → Run
  unfolding delete_resource
  delete_found (found obj) run = delete_resource obj run
  delete_found (get_failed e) run = if is_ignored e then run else add_error run

  -- `DeleteResource`
  unfoldable pub delete_resources : List Object → Run → Run
  unfolding delete_found
  delete_resources [] run = run
  delete_resources (obj ∷ objs) run =
      delete_resources objs (delete_found (client.get run.state obj) run)
