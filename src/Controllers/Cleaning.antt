-- ===== src/Controllers/Cleaning.antt =====
-- What the parts of a cleanup delete, against an API server that answers.
use mathlib.Core.List.{Memᴰ}
use thanos_operator.Common.{
  ℕ, String, Bool, true, false, not, List, [], ◌∷◌, ◌≡◌, ◌≢◌, ◌↔◌, ◌⊎◌, refl, inl, inr, contains,
  ltb, arith, if◌then◌else◌,
}
use thanos_operator.FeatureGate.{service_monitor_enabled}
use thanos_operator.Handlers.{
  custom_resource, Object, Client, ResourcePruner, Run, prune, prune_by_owner, new_resource_pruner,
  with_service_monitor, with_pod_disruption_budget,
}
use thanos_operator.Handlers.Frame.{is_enabled}
use thanos_operator.Handlers.Exact.{IsFaithful, prune-exact, prune_by_owner-selected}
use thanos_operator.Controllers.{Operator, also, prune_service_monitors, prune_disruption_budgets}

module _ (client : Client) (faithful : IsFaithful client) where
  -- The run started at `s`, has deleted the doomed objects and nothing else, and counts no error.
  abbrev pub Deletes : (Object → Type 0) → client.State → Run client → Type 0
  Deletes Doomed s run =
      ((x : Object)
        → Memᴰ x (faithful.objects run.state) ↔ (Memᴰ x (faithful.objects s) × ¬ Doomed x))
      × (run.err_count ≡ 0)

  pub nothing-Deletes :
      (Doomed : Object → Type 0) (s : client.State)
      → ((x : Object) → ¬ Doomed x)
      → Deletes Doomed s (record { state = s; err_count = 0 })
  nothing-Deletes Doomed s never = ((λ x. ((λ m. (m, never x)), (λ h. h.0))), refl)

  pub also-Deletes :
      (First Second : Object → Type 0) (s : client.State) (run : Run client)
      (next : client.State → Run client)
      → Deletes First s run
      → Deletes Second run.state (next run.state)
      → Deletes (λ x. First x ⊎ Second x) s (also client run next)
  unfolding also
  also-Deletes First Second s run next (first, no_error) (second, no_errors) = (
    (λ x. (
      (λ m.
          let (between, spared) = (second x).0 m in
          let (before, survives) = (first x).0 between in
          (before, λ d. elim d [ inl a ↦ survives a | inr b ↦ spared b ])),
      (λ (before, survives).
          (second x).1 ((first x).1 (before, λ a. survives (inl a)), λ b. survives (inr b))),
    )),
    omega arith,
  )

  -- What `Prune` dooms.
  abbrev pub IsOrphan : ResourcePruner → List String → List client.ListOption → Object → Type 0
  IsOrphan r keep opts x =
      (not (contains keep x.name) ≡ true)
      × (faithful.selects opts x ≡ true)
      × (is_enabled r x.kind ≡ true)

  pub prune-Deletes :
      (r : ResourcePruner) (keep : List String) (opts : List client.ListOption) (s : client.State)
      → Deletes (IsOrphan r keep opts) s (prune client r keep opts s)
  prune-Deletes r keep opts s = (
    (λ x. (prune-exact client faithful r keep opts s x).0),
    (prune-exact client faithful r keep opts s
        (record { kind = custom_resource; namespace = ""; name = ""; uid = ""; labels = [] })).1,
  )

  -- What `PruneByOwner` dooms.
  abbrev pub IsOwned : ResourcePruner → Object → Object → Type 0
  IsOwned r owner x =
      (client.is_controlled_by x owner ≡ true)
      × (faithful.selects (client.in_namespace owner.namespace ∷ []) x ≡ true)
      × (is_enabled r x.kind ≡ true)

  pub prune_by_owner-Deletes :
      (r : ResourcePruner) (owner : Object) (s : client.State)
      → owner.uid ≢ ""
      → Deletes (IsOwned r owner) s (prune_by_owner client r owner s)
  prune_by_owner-Deletes r owner s given = (
    (λ x. (prune_by_owner-selected client faithful r owner s x given).0),
    (prune_by_owner-selected client faithful r owner s owner given).1,
  )

  -- A step that is done only if a test passes, and one that is done only if it does not.
  pub if-Deletes :
      (b : Bool) (Doomed : Object → Type 0) (s : client.State) (run : Run client)
      → Deletes Doomed s run
      → Deletes
          (λ x. (b ≡ true) × Doomed x)
          s
          (if b then run else record { state = s; err_count = 0 })
  if-Deletes true Doomed s run (which, no_error) = (
    (λ x. (
      (λ m. let (there, spared) = (which x).0 m in (there, λ d. spared d.1)),
      (λ (there, spared). (which x).1 (there, λ d. spared (refl, d))),
    )),
    no_error,
  )
  if-Deletes false Doomed s run h =
      nothing-Deletes (λ x. (false ≡ true) × Doomed x) s (λ x d. cc (d.0))

  pub unless-Deletes :
      (b : Bool) (Doomed : Object → Type 0) (s : client.State) (run : Run client)
      → Deletes Doomed s run
      → Deletes
          (λ x. (b ≡ false) × Doomed x)
          s
          (if b then record { state = s; err_count = 0 } else run)
  unless-Deletes false Doomed s run (which, no_error) = (
    (λ x. (
      (λ m. let (there, spared) = (which x).0 m in (there, λ d. spared d.1)),
      (λ (there, spared). (which x).1 (there, λ d. spared (refl, d))),
    )),
    no_error,
  )
  unless-Deletes true Doomed s run h =
      nothing-Deletes (λ x. (true ≡ false) × Doomed x) s (λ x d. cc (d.0))

module _ {Value : Type 0} (operator : Operator Value) (faithful : IsFaithful operator.client) where
  -- A service monitor of the owner's, while the feature is off.
  abbrev pub IsGated : Object → Object → Type 0
  IsGated owner x =
      (service_monitor_enabled operator.features ≡ false)
      × IsOwned operator.client faithful (with_service_monitor new_resource_pruner) owner x

  pub prune_service_monitors-Deletes :
      (owner : Object) (s : operator.client.State)
      → owner.uid ≢ ""
      → Deletes operator.client faithful (IsGated owner) s (prune_service_monitors operator owner s)
  unfolding prune_service_monitors
  prune_service_monitors-Deletes owner s given =
      unless-Deletes operator.client faithful (service_monitor_enabled operator.features)
        (IsOwned operator.client faithful (with_service_monitor new_resource_pruner) owner) s
        (prune_by_owner operator.client (with_service_monitor new_resource_pruner) owner s)
        (prune_by_owner-Deletes operator.client faithful (with_service_monitor new_resource_pruner)
          owner s given)

  -- A disruption budget that the options select, while there are fewer than two replicas.
  abbrev pub IsSingle : ℕ → List operator.client.ListOption → Object → Type 0
  IsSingle replicas opts x =
      (ltb replicas 2 ≡ true)
      × IsOrphan operator.client faithful (with_pod_disruption_budget new_resource_pruner) [] opts x

  pub prune_disruption_budgets-Deletes :
      (replicas : ℕ) (opts : List operator.client.ListOption) (s : operator.client.State)
      → Deletes operator.client faithful
          (IsSingle replicas opts)
          s
          (prune_disruption_budgets operator replicas opts s)
  unfolding prune_disruption_budgets
  prune_disruption_budgets-Deletes replicas opts s =
      if-Deletes operator.client faithful (ltb replicas 2)
        (IsOrphan operator.client faithful (with_pod_disruption_budget new_resource_pruner) [] opts)
        s (prune operator.client (with_pod_disruption_budget new_resource_pruner) [] opts s)
        (prune-Deletes operator.client faithful (with_pod_disruption_budget new_resource_pruner) []
          opts s)
