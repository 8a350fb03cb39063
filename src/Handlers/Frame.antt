-- ===== src/Handlers/Frame.antt =====
-- Pruning changes the API server only by deleting objects that it means to delete.
use mathlib.Core.Path.{subst}
use thanos_operator.Common.{
  String, Bool, true, false, not, ◌==◌, List, [], ◌∷◌, ◌≡◌, refl, sym, inl, inr, All, Bool-cases,
  eq_iff, contains,
}
use thanos_operator.Handlers.{
  Kind, service_account, service, stateful_set, deployment, config_map, secret,
  pod_disruption_budget, service_monitor, custom_resource, Object, ListResult, items, list_failed,
  extract_failed, Answer, ok, delete_failed, Client, is_ignored, ResourcePruner, resource_types,
  Run, record_answer, delete_resource, prune_items, prune_listed, prune_types, prune_where, prune,
  prune_by_owner,
}

-- Whether the pruner was built with the kind.
unfoldable pub is_enabled : ResourcePruner → Kind → Bool
is_enabled r service_account = r.sa
is_enabled r service = r.svc
is_enabled r stateful_set = r.sts
is_enabled r deployment = r.dep
is_enabled r config_map = r.cm
is_enabled r secret = r.secret_enabled
is_enabled r pod_disruption_budget = r.pdb
is_enabled r service_monitor = r.svc_mon
is_enabled r custom_resource = false

pub resource_types-is_enabled :
    (r : ResourcePruner) → All (λ t. t.0 ≡ true → is_enabled r t.1 ≡ true) (resource_types r)
unfolding is_enabled
resource_types-is_enabled r = (
  (λ h. h),
  ((λ h. h), ((λ h. h), ((λ h. h), ((λ h. h), ((λ h. h), ((λ h. h), ((λ h. h), tt))))))),
)

-- The state that a call of `Delete` leaves.
unfoldable pub answered : {S : Type 0} → Answer S → S
answered (ok s) = s
answered (delete_failed s e) = s

-- A list call returns objects of the kind that it is asked for.
abbrev pub ListsTheKind : Client → Type 0
ListsTheKind client =
    (s : client.State) (k : Kind) (opts : List client.ListOption) (objs : List Object)
    → client.list s k opts ≡ items objs
    → All (λ o. o.kind ≡ k) objs

-- What deleting the objects that a pruner chooses has to keep.
abbrev pub IsKeptByDeleting :
    (client : Client) → ResourcePruner → (Object → Bool) → (client.State → Type 0) → Type 0
IsKeptByDeleting client r should_delete I =
    (s : client.State) (o : Object)
    → is_enabled r o.kind ≡ true
    → should_delete o ≡ true
    → I s
    → I (answered (client.delete s o))

record_answer-answered :
    (client : Client) (a : Answer client.State) (run : Run client)
    → (record_answer client a run).state ≡ answered a
unfolding record_answer answered
record_answer-answered client (ok s) run = refl
record_answer-answered client (delete_failed s e) run = elim (Bool-cases (is_ignored e)) [
  | inl i ↦ rw i refl
  | inr i ↦ rw i refl
]

delete_resource-answered :
    (client : Client) (o : Object) (run : Run client)
    → (delete_resource client o run).state ≡ answered (client.delete run.state o)
unfolding delete_resource
delete_resource-answered client o run =
    record_answer-answered client (client.delete run.state o) run

module _ (client : Client) (r : ResourcePruner) (should_delete : Object → Bool)
    (I : client.State → Type 0) (kept : IsKeptByDeleting client r should_delete I) where
  prune_items-kept :
      (k : Kind) (objs : List Object) (run : Run client)
      → is_enabled r k ≡ true
      → All (λ o. o.kind ≡ k) objs
      → I run.state
      → I (prune_items client should_delete objs run).state
  unfolding prune_items
  prune_items-kept k [] run on kinds h = h
  prune_items-kept k (o ∷ objs) run on (kind, kinds) h = elim (Bool-cases (should_delete o)) [
    | inl doomed ↦
        let deleted : I (delete_resource client o run).state =
          subst I (sym (delete_resource-answered client o run))
            (kept run.state o (rw kind on) doomed h) in
        rw (prune_items, doomed)
          (prune_items-kept k objs (delete_resource client o run) on kinds deleted)
    | inr spared ↦ rw (prune_items, spared) (prune_items-kept k objs run on kinds h)
  ]

  prune_listed-kept :
      (k : Kind) (l : ListResult) (run : Run client)
      → is_enabled r k ≡ true
      → ((objs : List Object) → l ≡ items objs → All (λ o. o.kind ≡ k) objs)
      → I run.state
      → I (prune_listed client should_delete l run).state
  unfolding prune_listed
  prune_listed-kept k (items objs) run on kinds h =
      prune_items-kept k objs run on (kinds objs refl) h
  prune_listed-kept k (list_failed e) run on kinds h = elim (Bool-cases (is_ignored e)) [
    | inl i ↦ rw i h
    | inr i ↦ rw i h
  ]
  prune_listed-kept k extract_failed run on kinds h = h

  prune_types-kept :
      ListsTheKind client
      → (opts : List client.ListOption) (types : List (Bool × Kind)) (run : Run client)
      → All (λ t. t.0 ≡ true → is_enabled r t.1 ≡ true) types
      → I run.state
      → I (prune_types client should_delete opts types run).state
  unfolding prune_types
  prune_types-kept lists opts [] run on h = h
  prune_types-kept lists opts ((true, k) ∷ types) run (on, ons) h =
      prune_types-kept lists opts types
        (prune_listed client should_delete (client.list run.state k opts) run) ons
        (prune_listed-kept k (client.list run.state k opts) run (on refl) (lists run.state k opts)
          h)
  prune_types-kept lists opts ((false, k) ∷ types) run (on, ons) h =
      prune_types-kept lists opts types run ons h

  prune_where-kept :
      ListsTheKind client
      → (opts : List client.ListOption) (s : client.State) → I s
      → I (prune_where client r should_delete opts s).state
  unfolding prune_where
  prune_where-kept lists opts s h =
      prune_types-kept lists opts (resource_types r) (record { state = s; err_count = 0 })
        (resource_types-is_enabled r) h

-- Whatever fails, pruning by name keeps every property of the server's state that is kept by
-- deleting an object of a kind with which the pruner was built and whose name is not to be kept;
-- where a list call returns objects of the kind that it is asked for.
pub prune-frame :
    (client : Client) (r : ResourcePruner) (keep : List String) (opts : List client.ListOption)
    (I : client.State → Type 0) (s : client.State)
    → ListsTheKind client
    → IsKeptByDeleting client r (λ obj. not (contains keep obj.name)) I
    → I s
    → I (prune client r keep opts s).state
unfolding prune
prune-frame client r keep opts I s lists kept h =
    prune_where-kept client r (λ obj. not (contains keep obj.name)) I kept lists opts s h

-- Whatever fails, pruning by owner keeps every property of the server's state that is kept by
-- deleting an object of a kind with which the pruner was built and which the owner controls, and it
-- leaves the state as it is where the owner has no uid; where a list call returns objects of the
-- kind that it is asked for.
pub prune_by_owner-frame :
    (client : Client) (r : ResourcePruner) (owner : Object) (I : client.State → Type 0)
    (s : client.State)
    → ListsTheKind client
    → IsKeptByDeleting client r (λ obj. client.is_controlled_by obj owner) I
    → I s
    → I (prune_by_owner client r owner s).state
      × (owner.uid ≡ "" → (prune_by_owner client r owner s).state ≡ s)
unfolding prune_by_owner
prune_by_owner-frame client r owner I s lists kept h = elim (Bool-cases (owner.uid == "")) [
  | inl e ↦ rw e (h, λ u. refl)
  | inr e ↦ rw e (
    prune_where-kept client r (λ obj. client.is_controlled_by obj owner) I kept lists
        (client.in_namespace owner.namespace ∷ []) s h,
    λ u. absurd (cc ((eq_iff owner.uid "").1 u)),
  )
]
