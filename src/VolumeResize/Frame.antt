-- ===== src/VolumeResize/Frame.antt =====
-- A reconciliation changes the API server only by growing claims and deleting the StatefulSet.
use mathlib.Core.Path.{subst}
use thanos_operator.Common.{
  String, Bool, true, false, List, [], ◌∷◌, ◌≡◌, refl, sym, ap, ◌∙◌, inl, inr, some, GoMap,
  Bool-cases, Option-cases, insert, zero, suc, ℕ, arith,
}
use thanos_operator.VolumeResize.{
  resource_storage, storage_size_annotation, read, StatefulSet, GetResult, found, not_found,
  get_failed, PatchResult, patched, patch_failed, DeleteResult, deleted, already_deleted,
  delete_failed, Environment, is_thanos_operator_stateful_set, instance, Claim, Processed,
  unchanged, resized, resize_failed, parse_failed, panicked, current_size, patch_result, resize_pvc,
  process_requested, process_pvc, Run, Looped, finished, panicked_at, record_processed,
  process_next, process_each, Reconciled, done, failed, crashed, delete_result,
  orphan_and_delete_stateful_set, recreate_if_needed, after_loop, process_pvcs, reconcile_found,
  reconcile,
}

-- The state that a call leaves.
unfoldable pub after_patch : {S : Type 0} → PatchResult S → S
after_patch (patched s) = s
after_patch (patch_failed s) = s

unfoldable pub after_delete : {S : Type 0} → DeleteResult S → S
after_delete (deleted s) = s
after_delete (already_deleted s) = s
after_delete (delete_failed s) = s

unfoldable pub final_state : (env : Environment) → Reconciled env → env.State
final_state env (done s) = s
final_state env (failed s) = s
final_state env (crashed s) = s

-- Kept by patching a claim that requests less storage than the StatefulSet's annotation asks for so
-- that it requests what the annotation asks for, whether the patch succeeds or fails.
abbrev pub IsKeptByGrowing : (env : Environment) → StatefulSet → (env.State → Type 0) → Type 0
IsKeptByGrowing env sts I =
    (s : env.State) (pvc : Claim env) (requests : GoMap env.Quantity) (size_str : String)
    (requested : env.Quantity)
    → pvc.requests ≡ some requests
    → read sts.annotations storage_size_annotation ≡ some size_str
    → env.parse_quantity size_str ≡ some requested
    → env.is_greater requested (current_size env pvc) ≡ true
    → I s
    → I (
        after_patch (
          env.patch s pvc
            (record pvc { requests = some (insert resource_storage requested requests) })))

-- The state that the controller goes on from.
unfoldable pub processed_state : (env : Environment) → Processed env → env.State → env.State
processed_state env unchanged s = s
processed_state env (resized s') s = s'
processed_state env (resize_failed s') s = s'
processed_state env parse_failed s = s
processed_state env panicked s = s

unfoldable pub looped_state : (env : Environment) → Looped env → env.State
looped_state env (finished run) = run.state
looped_state env (panicked_at s) = s

patch_result-state :
    (env : Environment) (p : PatchResult env.State) (s : env.State)
    → processed_state env (patch_result env p) s ≡ after_patch p
unfolding processed_state patch_result after_patch
patch_result-state env (patched s') s = refl
patch_result-state env (patch_failed s') s = refl

record_processed-state :
    (env : Environment) (p : Processed env) (run : Run env)
    → looped_state env (record_processed env p run) ≡ processed_state env p run.state
unfolding looped_state record_processed processed_state
record_processed-state env unchanged run = refl
record_processed-state env (resized s) run = refl
record_processed-state env (resize_failed s) run = refl
record_processed-state env parse_failed run = refl
record_processed-state env panicked run = refl

after_patch-resize_pvc :
    (env : Environment) (pvc : Claim env) (requests : GoMap env.Quantity) (requested : env.Quantity)
    (s : env.State)
    → pvc.requests ≡ some requests
    → processed_state env (resize_pvc env pvc requested s) s
      ≡ after_patch (
          env.patch s pvc
            (record pvc { requests = some (insert resource_storage requested requests) }))
unfolding resize_pvc
after_patch-resize_pvc env pvc requests requested s r =
    let patch =
      env.patch s pvc
        (record pvc { requests = some (insert resource_storage requested requests) }) in
    let same : resize_pvc env pvc requested s ≡ patch_result env patch = ground arith in
    ap (λ p. processed_state env p s) same ∙ patch_result-state env patch s

module _ (env : Environment) (sts : StatefulSet) (I : env.State → Type 0)
    (kept : IsKeptByGrowing env sts I) where
  -- By the result of processing a claim.
  by_result :
      (s : env.State) {p q : Processed env}
      → p ≡ q
      → I (processed_state env q s)
      → I (processed_state env p s)
  by_result s e h = subst (λ p. I (processed_state env p s)) (sym e) h

  process_pvc-kept :
      (pvc : Claim env) (s : env.State)
      → I s
      → I (processed_state env (process_pvc env pvc sts s) s)
  unfolding process_pvc process_requested resize_pvc processed_state
  process_pvc-kept pvc s h = elim (Option-cases (read sts.annotations storage_size_annotation)) [
    | inl a ↦ by_result s {p = process_pvc env pvc sts s} {q = unchanged} (ground arith) h
    | inr (size_str, a) ↦ elim (Option-cases (env.parse_quantity size_str)) [
      | inl e ↦ by_result s {p = process_pvc env pvc sts s} {q = parse_failed} (ground arith) h
      | inr (requested, e) ↦ elim (Bool-cases (env.is_greater requested (current_size env pvc))) [
        | inl g ↦ elim (Option-cases pvc.requests) [
          | inl r ↦ by_result s {p = process_pvc env pvc sts s} {q = panicked} (ground arith) h
          | inr (requests, r) ↦
              let same : process_pvc env pvc sts s ≡ resize_pvc env pvc requested s =
                ground arith in
              subst I
                (sym (
                  ap (λ p. processed_state env p s) same
                  ∙ after_patch-resize_pvc env pvc requests requested s r))
                (kept s pvc requests size_str requested r a e g h)
        ]
        | inr g ↦ by_result s {p = process_pvc env pvc sts s} {q = unchanged} (ground arith) h
      ]
    ]
  ]

  process_next-kept :
      (pvc : Claim env) (l : Looped env)
      → I (looped_state env l)
      → I (looped_state env (process_next env pvc sts l))
  unfolding process_next looped_state
  process_next-kept pvc (panicked_at s) h = h
  process_next-kept pvc (finished run) h =
      subst I (sym (record_processed-state env (process_pvc env pvc sts run.state) run))
        (process_pvc-kept pvc run.state h)

  pub process_each-kept :
      (pvcs : List (Claim env)) (l : Looped env)
      → I (looped_state env l)
      → I (looped_state env (process_each env pvcs sts l))
  unfolding process_each
  process_each-kept [] l h = h
  process_each-kept (pvc ∷ pvcs) l h =
      process_each-kept pvcs (process_next env pvc sts l) (process_next-kept pvc l h)

  module _ (deleting : (s : env.State) → I s → I (after_delete (env.delete s sts))) where
    delete_result-kept :
        (d : DeleteResult env.State)
        → I (after_delete d)
        → I (final_state env (delete_result env d))
    unfolding delete_result after_delete final_state
    delete_result-kept (deleted s) h = h
    delete_result-kept (already_deleted s) h = h
    delete_result-kept (delete_failed s) h = h

    recreate_if_needed-kept :
        (n : ℕ) (b : Bool) (s : env.State)
        → I s
        → I (final_state env (recreate_if_needed env n b sts s))
    unfolding recreate_if_needed orphan_and_delete_stateful_set final_state
    recreate_if_needed-kept (suc n) b s h = h
    recreate_if_needed-kept zero true s h = delete_result-kept (env.delete s sts) (deleting s h)
    recreate_if_needed-kept zero false s h = h

    after_loop-kept :
        (l : Looped env) → I (looped_state env l) → I (final_state env (after_loop env sts l))
    unfolding after_loop looped_state final_state
    after_loop-kept (panicked_at s) h = h
    after_loop-kept (finished run) h =
        recreate_if_needed-kept run.err_count run.needs_recreation run.state h

    process_pvcs-kept : (s : env.State) → I s → I (final_state env (process_pvcs env sts s))
    unfolding process_pvcs final_state looped_state
    process_pvcs-kept s h = elim (Option-cases (env.list s sts.namespace (instance sts))) [
      | inl e ↦ rw (process_pvcs, e) h
      | inr (pvcs, e) ↦
          rw (process_pvcs, e)
            (let start = finished (record { state = s; err_count = 0; needs_recreation = false }) in
              after_loop-kept (process_each env pvcs sts start) (process_each-kept pvcs start h))
    ]

-- The StatefulSet that the request names is there and carries the operator's labels.
abbrev pub IsManaged : (env : Environment) → env.State → String → String → StatefulSet → Type 0
IsManaged env s namespace name sts =
    (env.get s namespace name ≡ found sts) × (is_thanos_operator_stateful_set sts ≡ true)

reconcile_found-kept :
    (env : Environment) (s : env.State) (I : env.State → Type 0) (g : GetResult)
    → ((sts : StatefulSet)
        → (g ≡ found sts) × (is_thanos_operator_stateful_set sts ≡ true)
        → IsKeptByGrowing env sts I
          × ((s' : env.State) → I s' → I (after_delete (env.delete s' sts))))
    → I s
    → I (final_state env (reconcile_found env g s))
unfolding reconcile_found final_state
reconcile_found-kept env s I not_found kept h = h
reconcile_found-kept env s I get_failed kept h = h
reconcile_found-kept env s I (found sts) kept h =
    elim (Bool-cases (is_thanos_operator_stateful_set sts)) [
      | inl e ↦
          let (growing, deleting) = kept sts (refl, e) in
          rw (reconcile_found, e) (process_pvcs-kept env sts I growing deleting s h)
      | inr e ↦ rw (reconcile_found, e) h
    ]

-- Whatever fails, a reconciliation keeps every property of the server's state that is kept by
-- growing claims to what the StatefulSet's annotation asks for and by deleting that StatefulSet, where
-- the request names one that carries the operator's labels; where it names none, it keeps every
-- property.
pub reconcile-frame :
    (env : Environment) (namespace name : String) (s : env.State) (I : env.State → Type 0)
    → ((sts : StatefulSet)
        → IsManaged env s namespace name sts
        → IsKeptByGrowing env sts I
          × ((s' : env.State) → I s' → I (after_delete (env.delete s' sts))))
    → I s
    → I (final_state env (reconcile env namespace name s))
unfolding reconcile
reconcile-frame env namespace name s I kept h =
    reconcile_found-kept env s I (env.get s namespace name) kept h
