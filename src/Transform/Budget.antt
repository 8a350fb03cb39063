-- ===== src/Transform/Budget.antt =====
-- The PodDisruptionBudget that a resource's common fields lead to.
use thanos_operator.Common.{
  ℕ, String, false, Option, none, some, Labels, ℤ, pos, negsuc, ◌<◌, ◌≡◌, refl, inl, inr,
  Bool-cases, arith,
}
use thanos_operator.Common.Opt.{some-eq}
use thanos_operator.Manifests.Augmenting.{PodDisruptionBudgetOptions}
use thanos_operator.Transform.{
  PodDisruptionBudget, PodDisruptionBudgetConfig, less_than_two, is_disabled,
  pod_disruption_budget_config_to_opts, new_pod_disruption_budget, get_min_and_max,
}

less_than_two-false : (z : ℤ) → less_than_two z ≡ false → (n : ℕ) × (z ≡ pos n) × (1 < n)
unfolding less_than_two
less_than_two-false (pos n) h = (n, refl, ground arith)
less_than_two-false (negsuc n) h = cc

-- A budget lets one pod be away, of at least two, and sets no other bound.
abbrev pub LeavesOne : ℤ → PodDisruptionBudget → Type 0
LeavesOne replicas b =
    ((b.min_available ≡ none) × (b.max_unavailable ≡ some (pos 1)))
    × ((n : ℕ) × (replicas ≡ pos n) × (1 < n))

-- Where the common fields of a resource lead to a budget, the resource has at least two replicas, and the
-- budget is one unavailable pod, without a least number of available pods.
pub new_pod_disruption_budget-LeavesOne :
    (replicas : ℤ) (pdb : Option PodDisruptionBudgetConfig) (o : PodDisruptionBudgetOptions)
    (name namespace : String) (selector labels annotations : Option Labels)
    → pod_disruption_budget_config_to_opts replicas pdb ≡ some o
    → LeavesOne replicas (new_pod_disruption_budget name namespace selector labels annotations o)
unfolding pod_disruption_budget_config_to_opts new_pod_disruption_budget get_min_and_max
new_pod_disruption_budget-LeavesOne replicas none o name namespace selector labels annotations e =
    cc
new_pod_disruption_budget-LeavesOne replicas (some pdb) o name namespace selector labels annotations
      e =
    elim (Bool-cases (less_than_two replicas)) [
      | inl l ↦ cc
      | inr l ↦ elim (Bool-cases (is_disabled pdb)) [
        | inl d ↦ cc
        | inr d ↦
            let same : some record { max_unavailable = some (pos 1); min_available = none }
                ≡ some o =
              rw (l, d) at e in
            let q = some-eq same in rw⁻¹ q ((refl, refl), less_than_two-false replicas l)
      ]
    ]
