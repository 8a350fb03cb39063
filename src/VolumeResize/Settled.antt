-- ===== src/VolumeResize/Settled.antt =====
-- Reconciliations in which no claim is to be resized.
use mathlib.Core.List.{Memᴰ}
use thanos_operator.Common.{
  String, false, List, [], ◌∷◌, ◌≡◌, refl, ap, ◌∙◌, inl, inr, none, some, Option-cases, suc, ℕ,
  arith,
}
use thanos_operator.VolumeResize.{
  storage_size_annotation, read, StatefulSet, Environment, instance, Claim, unchanged, parse_failed,
  current_size, process_requested, process_pvc, Run, finished, record_processed, process_next,
  process_each, done, failed, recreate_if_needed, after_loop, process_pvcs, reconcile_found,
  reconcile,
}
use thanos_operator.VolumeResize.Frame.{IsManaged}

-- The claim requests what the annotation asks for, or more.
abbrev pub IsLargeEnough : (env : Environment) → StatefulSet → Claim env → Type 0
IsLargeEnough env sts pvc =
    (size_str : String)
    → read sts.annotations storage_size_annotation ≡ some size_str
    → (requested : env.Quantity) × (env.parse_quantity size_str ≡ some requested)
      × (env.is_greater requested (current_size env pvc) ≡ false)

process_pvc-large_enough :
    (env : Environment) (sts : StatefulSet) (pvc : Claim env) (s : env.State)
    → IsLargeEnough env sts pvc
    → process_pvc env pvc sts s ≡ unchanged
unfolding process_pvc process_requested
process_pvc-large_enough env sts pvc s h =
    elim (Option-cases (read sts.annotations storage_size_annotation)) [
      | inl a ↦ ground arith
      | inr (size_str, a) ↦ let (requested, e, g) = h size_str a in ground arith
    ]

process_each-large_enough :
    (env : Environment) (sts : StatefulSet) (pvcs : List (Claim env)) (run : Run env)
    → ((pvc : Claim env) → Memᴰ pvc pvcs → IsLargeEnough env sts pvc)
    → process_each env pvcs sts (finished run) ≡ finished run
unfolding process_each process_next record_processed
process_each-large_enough env sts [] run h = refl
process_each-large_enough env sts (pvc ∷ pvcs) run h =
    let same : process_pvc env pvc sts run.state ≡ unchanged =
      process_pvc-large_enough env sts pvc run.state (h pvc (Memᴰ.head refl)) in
    rw (process_each, process_next, same)
      (process_each-large_enough env sts pvcs run (λ p m. h p (Memᴰ.tail m)))

-- From a StatefulSet that carries the operator's labels to the loop over its claims.
reconcile-loop :
    (env : Environment) (namespace name : String) (s : env.State) (sts : StatefulSet)
    (pvcs : List (Claim env))
    → IsManaged env s namespace name sts
    → env.list s sts.namespace (instance sts) ≡ some pvcs
    → reconcile env namespace name s
      ≡ after_loop env sts (
          process_each env pvcs sts
            (finished (record { state = s; err_count = 0; needs_recreation = false })))
unfolding reconcile reconcile_found process_pvcs
reconcile-loop env namespace name s sts pvcs (there, managed) listed =
    rw (reconcile, there, reconcile_found, managed, process_pvcs, listed) refl

-- If every claim of the StatefulSet already requests what the annotation asks for, a reconciliation
-- succeeds and leaves the server as it is.
pub reconcile-large_enough :
    (env : Environment) (namespace name : String) (s : env.State) (sts : StatefulSet)
    (pvcs : List (Claim env))
    → IsManaged env s namespace name sts
    → env.list s sts.namespace (instance sts) ≡ some pvcs
    → ((pvc : Claim env) → Memᴰ pvc pvcs → IsLargeEnough env sts pvc)
    → reconcile env namespace name s ≡ done s
unfolding after_loop recreate_if_needed
reconcile-large_enough env namespace name s sts pvcs managed listed h =
    reconcile-loop env namespace name s sts pvcs managed listed
    ∙ ap (after_loop env sts) (
        process_each-large_enough env sts pvcs
          (record { state = s; err_count = 0; needs_recreation = false }) h)

process_pvc-unparsable :
    (env : Environment) (sts : StatefulSet) (size_str : String) (pvc : Claim env) (s : env.State)
    → read sts.annotations storage_size_annotation ≡ some size_str
    → env.parse_quantity size_str ≡ none
    → process_pvc env pvc sts s ≡ parse_failed
unfolding process_pvc process_requested
process_pvc-unparsable env sts size_str pvc s a e = ground arith

-- A run that has counted an error fails, whatever unparsable claims follow.
after_loop-unparsable :
    (env : Environment) (sts : StatefulSet) (size_str : String) (pvcs : List (Claim env))
    (s : env.State) (n : ℕ)
    → read sts.annotations storage_size_annotation ≡ some size_str
    → env.parse_quantity size_str ≡ none
    → after_loop env sts (
        process_each env pvcs sts
          (finished (record { state = s; err_count = suc n; needs_recreation = false })))
      ≡ failed s
unfolding after_loop recreate_if_needed process_each process_next record_processed
after_loop-unparsable env sts size_str [] s n a e = refl
after_loop-unparsable env sts size_str (pvc ∷ pvcs) s n a e =
    rw (process_each, process_next, process_pvc-unparsable env sts size_str pvc s a e)
      (after_loop-unparsable env sts size_str pvcs s (suc n) a e)

-- If the annotation is no quantity and the StatefulSet has a claim, a reconciliation fails and leaves
-- the server as it is.
pub reconcile-unparsable :
    (env : Environment) (namespace name : String) (s : env.State) (sts : StatefulSet)
    (size_str : String) (pvc : Claim env) (pvcs : List (Claim env))
    → IsManaged env s namespace name sts
    → env.list s sts.namespace (instance sts) ≡ some (pvc ∷ pvcs)
    → read sts.annotations storage_size_annotation ≡ some size_str
    → env.parse_quantity size_str ≡ none
    → reconcile env namespace name s ≡ failed s
unfolding process_each process_next record_processed
reconcile-unparsable env namespace name s sts size_str pvc pvcs managed listed a e =
    reconcile-loop env namespace name s sts (pvc ∷ pvcs) managed listed
    ∙ rw (process_each, process_next, process_pvc-unparsable env sts size_str pvc s a e)
        (after_loop-unparsable env sts size_str pvcs s 0 a e)
