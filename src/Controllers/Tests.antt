-- ===== src/Controllers/Tests.antt =====
-- The theorems on the controllers at small resources.
use Prim.Native.String.{◌∷◌ as cons}
use mathlib.Core.List.{Memᴰ}
use thanos_operator.Common.{
  ℕ, zero, suc, some, String, Bool, true, false, List, [], ◌∷◌, ◌==◌, ◌≡◌, ◌↔◌, ◌⊎◌, refl, sym, ap,
  inl, inr, eq_refl, Option, none, Labels, insert, index, All, ==-ne, nat_eq, Bool-cases, ◌∙◌,
  arith, if◌then◌else◌,
}
use thanos_operator.Controllers.{Synced, synced}
use thanos_operator.Controllers.Cleaning.{Deletes, IsOrphan, IsGated, IsSingle}
use thanos_operator.Controllers.Compact.{CompactSpec, after_pruning}
use thanos_operator.Controllers.Compact
use thanos_operator.Controllers.Compact.First.{IsLeftOver, sync_resources-prunes_first}
use thanos_operator.Controllers.Reconciling.{Condition, Resource, fetched, Cluster, reconcile}
use thanos_operator.Controllers.Reconciling.Conditions.{
  IsMarked, stop, step, reconciles, state_after, reconcile-IsMarked, find_condition, HasReady,
  is_reconciled, reconcile-HasReady,
}
use thanos_operator.Controllers.Sample.{
  held, admits-namespace, ns_given, objects, cluster, faithful_cluster, naming, operator, resource,
  u0_given,
}
use thanos_operator.Controllers.Store.{StoreSpec, RelabelConfig, spec_to_options, cleanup}
use thanos_operator.Controllers.Store.Cleaning.{store_pruner, own, store_cleanup-Deletes}
use thanos_operator.Controllers.Store.Sharding.{
  count, Relabeling, keeps_block, KeepsItsBucket, spec_to_options-partition,
}
use thanos_operator.Handlers.{ResourcePruner, new_resource_pruner, with_deployment, prune_by_owner}
use thanos_operator.Handlers.Frame.{is_enabled}
use thanos_operator.Handlers.Exact.{prune_by_owner-exact}
use thanos_operator.Manifests.Names.{Naming}

-- A store of three shards.
abbrev store : Resource StoreSpec
store = resource (record { replicas = 1; shards = 3 })

abbrev no_common : Resource StoreSpec → Unit {0}
no_common s = tt

store_cleanup-Deletes_example :
    Deletes cluster faithful_cluster
      (λ x.
        (IsOrphan cluster faithful_cluster store_pruner
            ("thanos-store-q" ∷ [])
            (own operator faithful_cluster no_common (λ opts. []) store)
            x
          ⊎ IsGated operator faithful_cluster store.object x)
        ⊎ IsSingle operator faithful_cluster 1
            (own operator faithful_cluster no_common (λ opts. []) store)
            x)
      true
      (cleanup operator no_common (λ opts. []) store ("thanos-store-q" ∷ []) true)
store_cleanup-Deletes_example =
    store_cleanup-Deletes operator faithful_cluster no_common (λ opts. []) store
      ("thanos-store-q" ∷ []) true u0_given

-- A compactor without shards.
abbrev compactor : Resource CompactSpec
compactor = resource (record { sharding_config = [] })

abbrev no_options : Resource CompactSpec → Unit {0}
no_options s = tt

sync_resources-prunes_first_example :
    (s' : Bool) × (Compact.sync_resources operator no_options (λ opts. []) compactor true
      ≡ after_pruning operator no_options (λ opts. []) compactor s')
    × ((x : _)
        → Memᴰ x (objects s')
        → ¬ IsLeftOver operator faithful_cluster no_options (λ opts. []) compactor x)
    × ((x : _)
        → Memᴰ x (objects s') ↔ (
            Memᴰ x (objects true)
            × ¬ IsLeftOver operator faithful_cluster no_options (λ opts. []) compactor x))
sync_resources-prunes_first_example =
    sync_resources-prunes_first operator faithful_cluster no_options (λ opts. []) compactor true

-- Numerals with as many characters as the number.
unary : ℕ → String
unary zero = ""
unary (suc n) = cons "i" (unary n)

unary-injective : (i j : ℕ) → unary i ≡ unary j → i ≡ j
unfolding unary
unary-injective zero zero h = refl
unary-injective zero (suc j) h = cc
unary-injective (suc i) zero h = cc
unary-injective (suc i) (suc j) h = ap suc (unary-injective i j (cc))

abbrev numbered : Naming
numbered = record naming { decimal = unary }

unary-eq : (i j : ℕ) → (unary i == unary j) ≡ nat_eq j i
unary-eq i j = elim (Bool-cases (nat_eq j i)) [
  | inl e ↦
      let same : j ≡ i = ground arith in
      let passes : (unary i == unary j) ≡ true = rw same (eq_refl (unary i)) in passes ∙ sym e
  | inr e ↦
      ==-ne (unary i) (unary j)
        (λ same. let equal : i ≡ j = unary-injective i j same in absurd (ground arith))
      ∙ sym e
]

-- A relabelling in which every id is in the bucket 0.
abbrev relabel : RelabelConfig → Labels → Option Labels
relabel c ls =
    if c.action == "hashmod"
    then some (insert c.target_label (unary 0) ls)
    else if c.action == "keep"
    then if c.regex == index c.source_label ls then some ls else none
    else none

abbrev relabeling : Relabeling numbered
relabeling = record {
  process = relabel;
  matches = λ r v. r == v;
  bucket = λ n value. 0;
  bucket_bound = λ n value h. h;
  hashmod = λ c ls e. rw e refl;
  keep = λ c ls e. rw e refl;
  matches_numeral = unary-eq;
}

abbrev block : Labels
block = ("__block_id", "01H") ∷ ("region", "eu") ∷ []

spec_to_options-partition_example :
    (count
        (keeps_block numbered relabeling no_common block)
        (spec_to_options numbered no_common store)
      ≡ 1)
    × All
        (KeepsItsBucket numbered relabeling no_common store block)
        (spec_to_options numbered no_common store)
spec_to_options-partition_example =
    spec_to_options-partition numbered relabeling no_common store block

abbrev deployments : ResourcePruner
deployments = with_deployment new_resource_pruner

prune_by_owner-exact_example :
    (Memᴰ held (objects (prune_by_owner cluster deployments store.object true).state) ↔ (
      Memᴰ held (objects true)
      × ¬ (
          (cluster.is_controlled_by held store.object ≡ true)
          × (held.namespace ≡ store.object.namespace)
          × (is_enabled deployments held.kind ≡ true))))
    × ((prune_by_owner cluster deployments store.object true).err_count ≡ 0)
prune_by_owner-exact_example =
    prune_by_owner-exact cluster faithful_cluster admits-namespace deployments store.object true
      held u0_given ns_given

-- A resource that is its own store of the status.
abbrev Plain : Type 0
Plain = Resource (Unit {0})

abbrev stored : Cluster Plain (Unit {0})
stored = record {
  set_status_condition = λ conditions c. c ∷ conditions;
  get = λ s. fetched s;
  update_status = λ s r. r;
}

abbrev do_nothing : Plain → Plain → Synced Plain
do_nothing r s = synced s

-- It was paused before.
abbrev resumed : Plain
resumed = record (resource tt) { status = record { conditions = []; paused = some true } }

resumed-IsMarked : IsMarked stored resumed
resumed-IsMarked r h = let same : resumed ≡ r = cc in ap (λ (x : Plain). x.status.paused) (sym same)

reconcile-IsMarked_example :
    IsMarked stored (state_after (reconcile stored false do_nothing resumed))
reconcile-IsMarked_example =
    reconcile-IsMarked stored (λ s r. inl refl) false do_nothing (λ r s r' h. (r', h, refl))
      (step (reconciles resumed) (stop (state_after (reconcile stored false do_nothing resumed))))
      resumed-IsMarked

sets_first :
    (conditions : List Condition) (c : Condition)
    → find_condition c.condition_type (c ∷ conditions) ≡ some c
unfolding find_condition
sets_first conditions c = rw (eq_refl c.condition_type) refl

reconcile-HasReady_example :
    HasReady stored
      (state_after (reconcile stored false do_nothing resumed))
      (is_reconciled stored (reconcile stored false do_nothing resumed))
reconcile-HasReady_example =
    reconcile-HasReady stored sets_first (λ s r. refl) do_nothing resumed resumed refl refl
      (λ s' h. cc)
