-- ===== src/Hashring/Runs.antt =====
-- Reconciliations in a row: the configuration that each one writes is the previous state of the
-- next one.
use mathlib.Core.List.{Memᴰ}
use mathlib.Core.List.Memᴰ
use thanos_operator.Common.{
  ◌≤◌, ◌<◌, ℤ, to_nat, at_least, at_least→le, String, true, false, List, [], ◌∷◌, ◌≡◌, inl, inr,
  refl, length, length-take, All, All-mem, All-of_mem, collect, Bool-cases, arith,
}
use thanos_operator.Hashring.Types.{
  HashringMeta, HashringConfig, HashringState, Hashrings, meta_to_hashring, is_empty_hashring,
}
use thanos_operator.Hashring.Merge.{
  unseen_entry, handle_unseen_hashrings, dynamic_merge, static_merge, tolerates, complete,
}
use thanos_operator.Hashring.Contents.{
  Source, IsTolerable, IsComplete, cut_to_desired, mem-dynamic_merge, mem-static_merge,
  tolerates_iff, complete_iff,
}

-- `spec.router.hashringPolicy`
pub data HashringPolicy : Type 0 where
  static dynamic : HashringPolicy

-- The choice at the end of `buildHashringConfig`.
unfoldable pub merge : HashringPolicy → Hashrings → HashringState → ℤ → Hashrings
merge static = static_merge
merge dynamic = dynamic_merge

unfoldable pub run : HashringPolicy → ℤ → Hashrings → List HashringState → Hashrings
run policy replication_factor current [] = current
run policy replication_factor current (observed ∷ later) =
    run policy replication_factor (merge policy current observed replication_factor) later

-- Every hashring has enough endpoints to replicate.
abbrev pub HasQuorum : ℤ → Hashrings → Type 0
HasQuorum replication_factor = All (λ h. to_nat replication_factor ≤ length h.endpoints)

-- Every hashring is meant to have at least as many replicas as the replication factor.
abbrev pub IsReplicable : ℤ → HashringState → Type 0
IsReplicable replication_factor =
    All (λ (x : String × HashringMeta). to_nat replication_factor ≤ to_nat x.1.desired_replicas)

abbrev pub HasName : String → Hashrings → Type 0
HasName k hs = (h : HashringConfig) × Memᴰ h hs × (h.name ≡ k)

module _ (replication_factor : ℤ) where
  handle_unseen_hashrings-HasQuorum :
      (fetched : HashringState)
      → IsReplicable replication_factor fetched
      → HasQuorum replication_factor (handle_unseen_hashrings fetched)
  unfolding handle_unseen_hashrings collect unseen_entry meta_to_hashring
  handle_unseen_hashrings-HasQuorum [] r = tt
  handle_unseen_hashrings-HasQuorum ((k, v) ∷ fetched) r =
      elim (Bool-cases (at_least (length v.config.endpoints) v.desired_replicas)) [
        | inl e ↦
            let enough = at_least→le (length v.config.endpoints) v.desired_replicas e in
            rw e (omega arith, handle_unseen_hashrings-HasQuorum fetched r.1)
        | inr e ↦ rw e (handle_unseen_hashrings-HasQuorum fetched r.1)
      ]

  Source-quorum :
      (Healthy : HashringMeta → Type 0) (fresh : String → HashringMeta → HashringConfig)
      (current : Hashrings) (fetched : HashringState) (hr : HashringConfig)
      → ((k : String) (v : HashringMeta)
          → Memᴰ (k, v) fetched
          → Healthy v
          → to_nat replication_factor ≤ length ((fresh k v).endpoints))
      → HasQuorum replication_factor current
      → Source Healthy fresh current fetched hr
      → to_nat replication_factor ≤ length hr.endpoints
  Source-quorum Healthy fresh current fetched hr big q (k, v, m, inl (h, e)) = rw e (big k v m h)
  Source-quorum Healthy fresh current fetched hr big q (k, v, m, inr (ill, mp, n)) =
      All-mem (λ h. to_nat replication_factor ≤ length h.endpoints) current q mp

  merge_in_use-HasQuorum :
      (policy : HashringPolicy) (current : Hashrings) (fetched : HashringState)
      → is_empty_hashring current ≡ false
      → IsReplicable replication_factor fetched
      → HasQuorum replication_factor current
      → HasQuorum replication_factor (merge policy current fetched replication_factor)
  unfolding merge meta_to_hashring
  merge_in_use-HasQuorum dynamic current fetched in_use r q = All-of_mem _ _ λ hr m.
      Source-quorum (IsTolerable replication_factor) meta_to_hashring current fetched hr
        (λ k v mv h. h.0) q ((mem-dynamic_merge current fetched replication_factor hr in_use).0 m)
  merge_in_use-HasQuorum static current fetched in_use r q = All-of_mem _ _ λ hr m.
      Source-quorum (IsComplete replication_factor) cut_to_desired current fetched hr
        (λ k v mv h.
          let wanted =
            All-mem
              (λ (x : String × HashringMeta).
                to_nat replication_factor ≤ to_nat x.1.desired_replicas)
              fetched r mv in
          omega (arith, length-take {0} (to_nat v.desired_replicas) v.config.endpoints))
        q ((mem-static_merge current fetched replication_factor hr in_use).0 m)

  -- With nothing in use both policies wait until all replicas are there.
  merge_unseen :
      (policy : HashringPolicy) (current : Hashrings) (fetched : HashringState)
      → is_empty_hashring current ≡ true
      → merge policy current fetched replication_factor ≡ handle_unseen_hashrings fetched
  unfolding merge dynamic_merge static_merge
  merge_unseen dynamic current fetched e = rw e
  merge_unseen static current fetched e = rw e

  -- If every observed hashring is meant to have at least as many replicas as the replication
  -- factor, a merge by either policy keeps the invariant that every configured hashring has at
  -- least as many endpoints as the replication factor.
  pub merge-HasQuorum :
      (policy : HashringPolicy) (current : Hashrings) (fetched : HashringState)
      → IsReplicable replication_factor fetched
      → HasQuorum replication_factor current
      → HasQuorum replication_factor (merge policy current fetched replication_factor)
  merge-HasQuorum policy current fetched r q = elim (Bool-cases (is_empty_hashring current)) [
    | inl e ↦
        rw (merge_unseen policy current fetched e) (handle_unseen_hashrings-HasQuorum fetched r)
    | inr e ↦ merge_in_use-HasQuorum policy current fetched e r q
  ]

  quorum_in_use :
      (k : String) (current : Hashrings)
      → 0 < to_nat replication_factor
      → HasQuorum replication_factor current
      → HasName k current
      → is_empty_hashring current ≡ false
  unfolding is_empty_hashring
  quorum_in_use k [] pos q (h, m, e) = absurd (Memᴰ.not-nil m)
  quorum_in_use k (h ∷ []) pos q n = let enough = q.0 in ground arith
  quorum_in_use k (h ∷ g ∷ hs) pos q n = refl

  dynamic_merge-HasName :
      (k : String) (current : Hashrings) (fetched : HashringState) (v : HashringMeta)
      → is_empty_hashring current ≡ false
      → Memᴰ (k, v) fetched
      → HasName k current
      → HasName k (dynamic_merge current fetched replication_factor)
  unfolding meta_to_hashring
  dynamic_merge-HasName k current fetched v in_use m (h, mh, e) =
      let back = λ (hr : HashringConfig).
        (mem-dynamic_merge current fetched replication_factor hr in_use).1 in
      elim (Bool-cases (tolerates replication_factor v)) [
        | inl t ↦ (
          meta_to_hashring k v,
          back (meta_to_hashring k v)
              (k, v, m, inl ((tolerates_iff replication_factor v).0 t, refl)),
          refl,
        )
        | inr t ↦ (
          h,
          back h (k, v, m, inr ((λ ok. cc ((tolerates_iff replication_factor v).1 ok)), mh, e)),
          e,
        )
      ]

  static_merge-HasName :
      (k : String) (current : Hashrings) (fetched : HashringState) (v : HashringMeta)
      → is_empty_hashring current ≡ false
      → Memᴰ (k, v) fetched
      → HasName k current
      → HasName k (static_merge current fetched replication_factor)
  unfolding meta_to_hashring
  static_merge-HasName k current fetched v in_use m (h, mh, e) =
      let back = λ (hr : HashringConfig).
        (mem-static_merge current fetched replication_factor hr in_use).1 in
      elim (Bool-cases (complete replication_factor v)) [
        | inl t ↦ (
          cut_to_desired k v,
          back (cut_to_desired k v) (k, v, m, inl ((complete_iff replication_factor v).0 t, refl)),
          refl,
        )
        | inr t ↦ (
          h,
          back h (k, v, m, inr ((λ ok. cc ((complete_iff replication_factor v).1 ok)), mh, e)),
          e,
        )
      ]

  merge-HasName :
      (policy : HashringPolicy) (k : String) (current : Hashrings) (fetched : HashringState)
      (v : HashringMeta)
      → is_empty_hashring current ≡ false
      → Memᴰ (k, v) fetched
      → HasName k current
      → HasName k (merge policy current fetched replication_factor)
  unfolding merge
  merge-HasName dynamic = dynamic_merge-HasName
  merge-HasName static = static_merge-HasName

  -- The observed state has the hashring, whatever its endpoints are.
  abbrev pub IsDeclared : String → HashringState → Type 0
  IsDeclared k fetched = (v : HashringMeta) × Memᴰ (k, v) fetched

  -- A configured hashring stays configured, with at least as many endpoints as the replication
  -- factor, through any number of reconciliations by either policy: if the replication factor is
  -- positive, the configuration at the start has enough endpoints in every hashring, and every
  -- observed state declares the hashring and is meant to have at least as many replicas as the
  -- replication factor in each of its hashrings. Which endpoints are ready does not matter.
  pub run-HasName :
      (policy : HashringPolicy) (k : String) (current : Hashrings) (states : List HashringState)
      → 0 < to_nat replication_factor
      → HasQuorum replication_factor current
      → HasName k current
      → All (λ fetched. IsReplicable replication_factor fetched × IsDeclared k fetched) states
      → HasName k (run policy replication_factor current states)
        × HasQuorum replication_factor (run policy replication_factor current states)
  unfolding run
  run-HasName policy k current [] pos q n h = (n, q)
  run-HasName policy k current (fetched ∷ states) pos q n h =
      let (v, m) = h.0.1 in
      let in_use = quorum_in_use k current pos q n in
      run-HasName policy k (merge policy current fetched replication_factor) states pos
        (merge-HasQuorum policy current fetched h.0.0 q)
        (merge-HasName policy k current fetched v in_use m n) h.1
