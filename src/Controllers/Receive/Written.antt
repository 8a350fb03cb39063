-- ===== src/Controllers/Receive/Written.antt =====
-- The hashring configuration that is written.
use mathlib.Core.Path.{subst}
use thanos_operator.Common.{
  to_nat, ◌≤◌, String, ◌==◌, List, [], ◌∷◌, Option-cases, some, All, insert, ◌≡◌, ◌⊎◌, refl, ◌∙◌,
  inl, inr, Bool-cases,
}
use thanos_operator.Controllers.Reconciling.{Resource}
use thanos_operator.Controllers.Selectors.{router_resource_name}
use thanos_operator.Controllers.Receive.{
  HashringSpec, ReceiveSpec, Outcome, done, not_done, outcome_panics, then_with,
  HashringEnvironment, current_state, fetched_meta, endpoints_of, fetch_ready, policy_of, written,
  build_hashring_config,
}
use thanos_operator.Hashring.Types.{Endpoint, HashringMeta, HashringState, Hashrings}
use thanos_operator.Hashring.Runs.{merge, HasQuorum, IsReplicable, merge-HasQuorum}
use thanos_operator.Manifests.Names.{Naming}

then_with-done :
    {R Q : Type 0} (o : Outcome R) (f : R → Outcome Q) (q : Q)
    → then_with o f ≡ done q
    → (r : R) × (o ≡ done r) × (f r ≡ done q)
unfolding then_with
then_with-done (done r) f q h = (r, refl, h)
then_with-done (not_done e) f q h = cc
then_with-done outcome_panics f q h = cc

module _ {S : Type 0} (env : HashringEnvironment S) (naming : Naming)
    (receiver : Resource ReceiveSpec) (s : S) where
  -- The text stands for the configuration: the empty text for none, and else its JSON.
  abbrev pub StandsFor : String → Hashrings → Type 0
  StandsFor text hashrings = ((text ≡ "") × (hashrings ≡ [])) ⊎ (env.encode hashrings ≡ some text)

  written-StandsFor :
      (hashrings : Hashrings) (text : String)
      → written env naming receiver s hashrings ≡ done text
      → StandsFor text hashrings
  unfolding written
  written-StandsFor [] text h = inl (cc, refl)
  written-StandsFor (x ∷ xs) text h = elim (Option-cases (env.encode (x ∷ xs))) [
    | inl e ↦ cc (rw (e, written) at h)
    | inr (t, e) ↦ inr (e ∙ cc (rw (e, written) at h))
  ]

  -- Every hashring of the resource is meant to have at least as many replicas as the replication
  -- factor.
  abbrev pub HasReplicas : HashringSpec → Type 0
  HasReplicas hashring = to_nat receiver.spec.replication_factor ≤ to_nat hashring.replicas

  insert-IsReplicable :
      (k : String) (v : HashringMeta) (m : HashringState)
      → to_nat receiver.spec.replication_factor ≤ to_nat v.desired_replicas
      → IsReplicable receiver.spec.replication_factor m
      → IsReplicable receiver.spec.replication_factor (insert k v m)
  unfolding insert
  insert-IsReplicable k v [] h r = (h, tt)
  insert-IsReplicable k v ((j, w) ∷ m) h r = elim (Bool-cases (j == k)) [
    | inl e ↦ rw (e, insert) (h, r.1)
    | inr e ↦ rw (e, insert) (r.0, insert-IsReplicable k v m h r.1)
  ]

  fetch_ready-IsReplicable :
      (hashrings : List HashringSpec) (fetched result : HashringState)
      → All HasReplicas hashrings
      → IsReplicable receiver.spec.replication_factor fetched
      → fetch_ready env naming receiver s hashrings fetched ≡ done result
      → IsReplicable receiver.spec.replication_factor result
  unfolding fetch_ready fetched_meta
  fetch_ready-IsReplicable [] fetched result h r e =
      let same : fetched ≡ result = cc in
      subst (IsReplicable receiver.spec.replication_factor) same r
  fetch_ready-IsReplicable (hashring ∷ hashrings) fetched result h r e =
      let (endpoints, found, rest) =
        then_with-done (endpoints_of env naming receiver s hashring)
          (λ (endpoints : List Endpoint).
            fetch_ready env naming receiver s hashrings
              (insert hashring.name (fetched_meta env hashring endpoints) fetched))
          result e in
      fetch_ready-IsReplicable hashrings
        (insert hashring.name (fetched_meta env hashring endpoints) fetched) result h.1
        (insert-IsReplicable hashring.name (fetched_meta env hashring endpoints) fetched h.0 r) rest

  -- What a reconciliation writes stands for the merge, by the policy of the resource, of the
  -- configuration that the ConfigMap held with the observed state; and if every hashring of the resource
  -- has at least as many replicas as the replication factor, and every configured hashring had at least
  -- as many endpoints, then so has every hashring of the written configuration.
  pub build_hashring_config-merge :
      (text : String)
      → build_hashring_config env naming receiver s ≡ done text
      → (current : Hashrings) × (fetched : HashringState) × (current_state env (
            env.get_config_map s receiver.object.namespace
              (router_resource_name naming receiver.object.name))
          ≡ done current)
        × (fetch_ready env naming receiver s receiver.spec.hashrings [] ≡ done fetched)
        × StandsFor text (
            merge
              (policy_of env naming receiver s receiver.spec.hashring_policy)
              current
              fetched
              receiver.spec.replication_factor)
        × (All HasReplicas receiver.spec.hashrings
            → HasQuorum receiver.spec.replication_factor current
            → HasQuorum receiver.spec.replication_factor (
                merge
                  (policy_of env naming receiver s receiver.spec.hashring_policy)
                  current
                  fetched
                  receiver.spec.replication_factor))
  unfolding build_hashring_config
  build_hashring_config-merge text h =
      let (current, read, rest) =
        then_with-done
          (current_state env (
            env.get_config_map s receiver.object.namespace
              (router_resource_name naming receiver.object.name)))
          _ text h in
      let (fetched, got, last) =
        then_with-done (fetch_ready env naming receiver s receiver.spec.hashrings []) _ text rest in
      (
        current,
        fetched,
        read,
        got,
        written-StandsFor _ text last,
        λ enough quorum.
            merge-HasQuorum receiver.spec.replication_factor
              (policy_of env naming receiver s receiver.spec.hashring_policy) current fetched
              (fetch_ready-IsReplicable receiver.spec.hashrings [] fetched enough tt got) quorum,
      )
